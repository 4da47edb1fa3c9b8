-- ===== src/Config/Env.antt =====
-- internal/config/config.go: expandEnv. The environment is a parameter, and so is how `os.Expand` cuts a text
-- into plain parts and the names of variables.
pub mod Filled
pub mod Missing
use Prim.Native.String.{◌++◌ as str_append}
use nodux.Base.{
  ℕ, suc, ◌≡◌, refl, ap₂, sym, ◌∙◌, ◌⊎◌, inl, inr, Bool, true, false, not, String, List, [], ◌∷◌,
  ◌++◌, Option, none, some, is_empty, str_lt, if◌then◌else◌, or_else, select, append_assoc, arith,
  ap, append-nil,
}
use nodux.Dict.{Dict}
use nodux.Sort.{sort_by}
use nodux.Action.Route.{is_nil}
use nodux.Config.{
  Config, ActionsConfig, WebhookConfig, ReceiverConfig, ProbeTarget, ProbesConfig, HeartbeatConfig,
  LlmConfig, TelegramConfig, ChatOpsConfig,
}
use nodux.Config.Checks.{Field, key, named, indexed}

-- A part of a text.
pub data Part : Type 0 where
  plain variable : String → Part

-- A variable, and the field that names it.
pub record Reference : Type 0 where
  pub name : String
  pub field : Field

pub record Env : Type 0 where
  pub parts : String → List Part
  -- `os.LookupEnv`.
  pub lookup_env : String → Option String
  -- The text of an unset variable in the error.
  pub text : Reference → String

-- A field of a receiver, by its name or else its position.
unfoldable pub receiver_field : ℕ → ReceiverConfig → String → Field
receiver_field i r more =
    if is_empty r.name
    then indexed "actions.receivers" i more
    else named "actions.receivers" r.name more

module _ (env : Env) where
  -- `!ok || v == ""`.
  unfoldable pub is_missing : String → Bool
  is_missing name = is_empty (or_else (env.lookup_env name) "")

  -- The closure `expand`: the text, and what it adds to `missing`.
  unfoldable pub expand_parts : Field → List Part → String × List Reference
  unfolding is_missing
  expand_parts field [] = ("", [])
  expand_parts field (plain s ∷ ps) =
      let (rest, missing) = expand_parts field ps in (str_append s rest, missing)
  expand_parts field (variable name ∷ ps) =
      let (rest, missing) = expand_parts field ps in
      (
        str_append (or_else (env.lookup_env name) "") rest,
        if is_missing name then record { name = name; field = field } ∷ missing else missing,
      )

  unfoldable pub expand : Field → String → String × List Reference
  unfolding expand_parts
  expand field s = expand_parts field (env.parts s)

  unfoldable pub expand_headers :
      (String → Field) → Dict String String → Dict String String × List Reference
  unfolding expand
  expand_headers field [] = ([], [])
  expand_headers field ((k, v) ∷ headers) =
      let (rest, missing) = expand_headers field headers in
      ((k, (expand (field k) v).0) ∷ rest, (expand (field k) v).1 ++ missing)

  unfoldable pub expand_webhook : WebhookConfig → WebhookConfig × List Reference
  unfolding expand expand_headers
  expand_webhook wh =
      if wh.enabled
      then (let url = expand (key "actions.webhook.url") wh.url in
          let headers =
            expand_headers (λ k. key (str_append "actions.webhook.headers." k)) wh.headers in
          (record wh { url = url.0; headers = headers.0 }, url.1 ++ headers.1))
      else (wh, [])

  unfoldable pub expand_receiver : ℕ → ReceiverConfig → ReceiverConfig × List Reference
  unfolding expand expand_headers receiver_field
  expand_receiver i r =
      let url = expand (receiver_field i r ".url") r.url in
      let api_url = expand (receiver_field i r ".api_url") r.api_url in
      let bot_token = expand (receiver_field i r ".bot_token") r.bot_token in
      let chat_id = expand (receiver_field i r ".chat_id") r.chat_id in
      let token = expand (receiver_field i r ".token") r.token in
      let headers = expand_headers (λ k. receiver_field i r (str_append ".headers." k)) r.headers in
      (
        record r {
          url = url.0;
          api_url = api_url.0;
          bot_token = bot_token.0;
          chat_id = chat_id.0;
          token = token.0;
          headers = headers.0;
        },
        url.1 ++ (api_url.1 ++ (bot_token.1 ++ (chat_id.1 ++ (token.1 ++ headers.1)))),
      )

  unfoldable pub expand_receivers : ℕ → List ReceiverConfig → List ReceiverConfig × List Reference
  unfolding expand_receiver
  expand_receivers i [] = ([], [])
  expand_receivers i (r ∷ rs) =
      let (rest, missing) = expand_receivers (suc i) rs in
      ((expand_receiver i r).0 ∷ rest, (expand_receiver i r).1 ++ missing)

  unfoldable pub expand_targets : List ProbeTarget → List ProbeTarget × List Reference
  unfolding expand
  expand_targets [] = ([], [])
  expand_targets (t ∷ ts) =
      let (rest, missing) = expand_targets ts in
      let url = expand (named "probes.targets" t.name ".url") t.url in
      (record t { url = url.0 } ∷ rest, url.1 ++ missing)

  unfoldable pub expand_heartbeat : HeartbeatConfig → HeartbeatConfig × List Reference
  unfolding expand
  expand_heartbeat hb =
      if hb.enabled
      then (
        record hb { url = (expand (key "heartbeat.url") hb.url).0 },
        (expand (key "heartbeat.url") hb.url).1,
      )
      else (hb, [])

  unfoldable pub expand_llm : LlmConfig → LlmConfig × List Reference
  unfolding expand
  expand_llm l =
      if l.enabled
      then (
        record l {
          api_key = (expand (key "llm.api_key") l.api_key).0;
          base_url = (expand (key "llm.base_url") l.base_url).0;
        },
        (expand (key "llm.api_key") l.api_key).1 ++ (expand (key "llm.base_url") l.base_url).1,
      )
      else (l, [])

  unfoldable pub expand_telegram : TelegramConfig → TelegramConfig × List Reference
  unfolding expand
  expand_telegram tg =
      if tg.enabled
      then (
        record tg { token = (expand (key "chatops.telegram.token") tg.token).0 },
        (expand (key "chatops.telegram.token") tg.token).1,
      )
      else (tg, [])

  module _ {Float : Type 0} where
    -- The fields, and the variables that are not set.
    unfoldable pub expand_fields : Config Float → Config Float × List Reference
    unfolding expand_webhook expand_receivers expand_targets expand_heartbeat expand_llm
        expand_telegram
    expand_fields c =
        let webhook = expand_webhook c.actions.webhook in
        let receivers = expand_receivers 0 c.actions.receivers in
        let targets = expand_targets c.probes.targets in
        let heartbeat = expand_heartbeat c.heartbeat in
        let llm = expand_llm c.llm in
        let telegram = expand_telegram c.chat_ops.telegram in
        (
          record c {
            actions = record { webhook = webhook.0; receivers = receivers.0 };
            probes = record c.probes { targets = targets.0 };
            heartbeat = heartbeat.0;
            llm = llm.0;
            chat_ops = record { telegram = telegram.0 };
          },
          webhook.1 ++ (receivers.1 ++ (targets.1 ++ (heartbeat.1 ++ (llm.1 ++ telegram.1)))),
        )

    -- The error names the variables in the order of its texts.
    unfoldable pub expand_env : Config Float → List Reference ⊎ Config Float
    unfolding expand_fields
    expand_env c =
        let (expanded, missing) = expand_fields c in
        if is_nil missing
        then inr expanded
        else inl (sort_by (λ a b. str_lt (env.text a) (env.text b)) missing)
