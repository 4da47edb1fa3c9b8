-- ===== src/Config/Tests.antt =====
-- internal/config/config.go on the configuration of an empty file, with whole numbers for percentages.
use nodux.Base.{
  inl, inr, str_lt, ℕ, ◌≡◌, refl, true, false, [], ◌∷◌, pos, none, some, select, is_empty, is_zero,
  ltb, ◌==◌, string_eq, if◌then◌else◌,
}
use nodux.Dict.{delete}
use nodux.Sort.{sort_by, insert_by}
use nodux.Digest.Schedule.{Parsers}
use nodux.Config.{Config, ReceiverConfig}
use nodux.Config.Checks.{
  Decides, World, wrong, key, foreign, check_threshold, check_url, check_parsed, guard,
  ◌followed_by◌, where_set, each,
}
use nodux.Config.Default.{default}
use nodux.Action.Route.{is_nil}
use nodux.Config.Env.{Env, variable, expand_env}
use nodux.Config.Env.Filled.{on_texts, filled}
use nodux.Config.Env.Missing.{references, unset, expand_env-unset}
use nodux.Config.Probes.{validate_probes}
use nodux.Config.Receiver.{
  validate_receiver, check_kind, check_foreign, bad_fields, without, foreign_fields,
}
use nodux.Config.Validate.{
  validate, check_global, check_positive, check_non_negative, check_crash_loop, check_forecast,
  check_incidents, check_detectors, check_signal, check_pressure, check_host, check_webhook,
  check_receivers, check_actions, check_heartbeat, check_llm, check_digest,
}
use nodux.Config.Validate.Valid.{IsConfig, validate-Decides}

abbrev world : World ℕ
world = record {
  at_most_zero = is_zero;
  less_than_zero = λ n. false;
  over_hundred = λ n. ltb 100 n;
  is_level = λ s. s == "info";
  is_abs = λ s. true;
  compiles = λ s. true;
  splits = λ s. true;
  is_pattern = λ s. true;
  parse_url =
      λ s. if is_empty s then none else some (record { scheme = "https"; host = s; path = "/" });
  trim_slashes = λ s. "";
}

abbrev parsers : Parsers
parsers = record { to_lower = λ s. s; cut = λ s. some (s, s); atoi = λ s. some (pos 9) }

abbrev float : ℕ → ℕ
float n = n

abbrev hook : ReceiverConfig
hook = record {
  name = "hook";
  kind = "webhook";
  severities = "critical" ∷ [];
  detectors = [];
  send_resolved = none;
  digest = none;
  url = "example.org";
  timeout_seconds = pos 0;
  format = "json";
  headers = [];
  bot_token = "";
  chat_id = "12";
  thread_id = pos 0;
  api_url = "";
  token = "abc";
}

validate-Decides_example :
    Decides (validate world parsers (default float)) (IsConfig world parsers (default float))
validate-Decides_example = validate-Decides world parsers (default float)

default-IsConfig : validate world parsers (default float) ≡ none
unfolding validate check_global check_positive check_non_negative check_crash_loop check_forecast
    check_incidents check_detectors check_signal check_pressure check_host check_webhook
    check_receivers check_actions check_heartbeat check_llm check_digest check_threshold
    validate_probes default guard ◌followed_by◌ where_set each
default-IsConfig = refl

foreign_fields_named :
    validate_receiver world hook ≡ some (wrong (key "hook") (foreign ("chat_id" ∷ "token" ∷ [])))
unfolding validate_receiver check_kind check_url check_parsed check_foreign bad_fields without
    foreign_fields delete select sort_by insert_by guard ◌followed_by◌ where_set each
foreign_fields_named = refl

abbrev with_llm : Config ℕ
with_llm = record (default float) { llm = record (default float).llm { enabled = true } }

-- A text that is one reference, and an environment without any variable.
abbrev bare : Env
bare = record { parts = λ s. variable s ∷ []; lookup_env = λ name. none; text = λ r. r.name }

expand_env-unset_example : expand_env bare with_llm ≡ (
    if is_nil (unset bare (references bare with_llm))
    then inr (on_texts (filled bare) with_llm)
    else inl (sort_by (λ a b. str_lt a.name b.name) (unset bare (references bare with_llm))))
expand_env-unset_example = expand_env-unset bare with_llm
