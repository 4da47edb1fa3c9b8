-- ===== src/Llm/Converse.antt =====
-- internal/llm/anthropic.go, converse and callTools: the rounds of one conversation. The API is a
-- parameter, `none` being its error, and so are the tools; texts are cut to their lengths by
-- `Truncate` of internal/detector, which counts bytes that the texts of the model do not have and is a
-- parameter here, and the timeout of the whole is an error of the API.
pub mod Rounds
use nodux.Base.{
  ℕ, zero, suc, ◌+◌, Bool, true, false, not, ◌&&◌, String, List, [], ◌∷◌, ◌++◌, map, Option, none,
  some, if◌then◌else◌, is_empty, is_zero,
}

pub data StopReason : Type 0 where
  refusal tool_use end_turn : StopReason

pub record ToolCall : Type 0 where
  pub id : String
  pub name : String
  pub input : String

pub record Reply : Type 0 where
  pub stop : StopReason
  pub text : String
  pub calls : List ToolCall

-- A block of a user's message, or the model's reply.
pub data Turn : Type 0 where
  prompt : String → Turn
  replied : Reply → Turn
  tool_result : String → String → Bool → Turn
  last_round : Turn

-- What changes in the request from round to round.
pub record Params : Type 0 where
  pub messages : List Turn
  pub tools_off : Bool

pub data Result : Type 0 where
  api_error declined empty_answer : Result
  text : String → Result

pub record World : Type 0 where
  pub api : Params → Option Reply
  -- The tool's output, or its error.
  pub tool : String → String → String × Bool
  pub truncate : String → ℕ → String
  pub trim_space : String → String

abbrev pub max_tool_result : ℕ
max_tool_result = 8000

module _ (w : World) where
  -- The result of one call; an error is cut shorter and marked.
  unfoldable pub call_tool : ToolCall → Turn
  call_tool c =
      let (out, is_error) = w.tool c.name c.input in
      tool_result c.id (w.truncate out (if is_error then 1000 else max_tool_result)) is_error

  unfoldable pub call_tools : Reply → List Turn
  unfolding call_tool
  call_tools r = map call_tool r.calls

  -- The text of a reply.
  unfoldable pub finish : ℕ → Reply → Result
  finish max_chars r =
      let s = w.truncate (w.trim_space r.text) max_chars in
      if is_empty s then empty_answer else text s

  -- The next request, after tools have run; `left` rounds of tool calls are left after this one.
  unfoldable pub next_params : ℕ → Reply → Params → Params
  unfolding call_tools
  next_params left r p = record {
    messages =
        p.messages ++ replied r ∷ (call_tools r ++ (if is_zero left then last_round ∷ [] else []));
    tools_off = if is_zero left then true else p.tools_off;
  }

  -- A reply that ends the conversation.
  unfoldable pub conclude : ℕ → Reply → Result
  unfolding finish
  conclude max_chars r = elim r.stop [
    | refusal ↦ declined
    | tool_use ↦ finish max_chars r
    | end_turn ↦ finish max_chars r
  ]

  abbrev pub wants_tools : Bool → Reply → Bool
  wants_tools use_tools r = elim r.stop [
    | refusal ↦ false
    | tool_use ↦ use_tools
    | end_turn ↦ false
  ]

  -- The loop, with the rounds of tool calls that are left, `a.maxSteps - round`. The requests that were
  -- sent come with the result.
  unfoldable pub rounds : Bool → ℕ → ℕ → Params → List Params × Result
  unfolding conclude next_params
  rounds use_tools max_chars zero p = elim (w.api p) [
    | none ↦ (p ∷ [], api_error)
    | some r ↦ (p ∷ [], conclude max_chars r)
  ]
  rounds use_tools max_chars (suc left) p = elim (w.api p) [
    | none ↦ (p ∷ [], api_error)
    | some r ↦ elim (wants_tools use_tools r) [
      | true ↦
          let rest = rounds use_tools max_chars left (next_params left r p) in (p ∷ rest.0, rest.1)
      | false ↦ (p ∷ [], conclude max_chars r)
    ]
  ]

  unfoldable pub converse : Bool → ℕ → ℕ → String → List Params × Result
  unfolding rounds
  converse use_tools max_steps max_chars question =
      rounds use_tools max_chars max_steps
        (record { messages = prompt question ∷ []; tools_off = false })
