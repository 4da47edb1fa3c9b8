-- ===== src/Llm/Tests.antt =====
-- internal/llm/anthropic.go on concrete conversations and hours.
use nodux.Base.{
  ℕ, ◌≡◌, refl, ◌≤◌, true, false, String, List, [], ◌∷◌, Option, some, select, length, arith,
  if◌then◌else◌, leb, count,
}
use nodux.Llm.Budget.{prune, allow, run, exhausted}
use nodux.Llm.Budget.Cap.{after, fresh, granted, in_hour, granted-le}
use nodux.Llm.Converse.{World, Params, Reply, converse, tool_use, end_turn, text}
use nodux.Llm.Converse.Rounds.{converse-length}

-- A model that asks for the logs until it has been told twice.
abbrev answers : Params → Option Reply
answers p =
    if leb (length p.messages) 4
    then some (record {
      stop = tool_use;
      text = "";
      calls = record { id = "1"; name = "logs"; input = "web" } ∷ [];
    })
    else some (record { stop = end_turn; text = "out of disk"; calls = [] })

abbrev world : World
world = record {
  api = answers;
  tool = λ name input. (name, false);
  truncate = λ s n. s;
  trim_space = λ s. s;
}

abbrev times : List ℕ
times = 9 ∷ 7 ∷ 5 ∷ []

converse_result : (converse world true 5 3000 "why?").1 ≡ text "out of disk"
unfolding converse
converse_result = refl

converse-length_example : length (converse world true 5 3000 "why?").0 ≤ 6
converse-length_example = converse-length world true 5 3000 "why?"

granted-le_example : count (in_hour 9) (granted (fresh 2) times) ≤ 2
granted-le_example =
    granted-le 2 9 9 times (omega arith) (omega arith, (omega arith, (omega arith, tt)))

run_example : (run {A = String} 9 (some "ok") (after (fresh 2) (7 ∷ 5 ∷ []))).0 ≡ exhausted
unfolding run allow prune select
run_example = refl
