-- ===== src/Engine/Inspect.antt =====
-- internal/engine/engine.go, toSnapshot and what it calls, and the part of
-- internal/dockerclient/types.go that it reads.
use nodux.Base.{
  ℕ, Bool, String, List, [], ◌∷◌, Option, none, some, if◌then◌else◌, is_empty, leb, ltb, ℤ,
  positive, or_else, ◌*◌, ◌/◌, ◌-◌, string_eq,
}
use Prim.Native.String.{◌++◌ as str_append}
use nodux.Dict.{Dict, lookup}
use nodux.Detector.Types.{ContainerSnapshot, Labels, no_container}
use nodux.Detector.Labels.{relevant_labels}

pub record RestartPolicy : Type 0 where
  pub name : String
  pub maximum_retry_count : ℤ

-- The outputs of the log, oldest first.
pub record Health : Type 0 where
  pub status : String
  pub failing_streak : ℕ
  pub log : List String

-- The fields that the engine reads; those of the nested structs stand side by side.
pub record ContainerInspect : Type 0 where
  pub id : String
  pub created : String
  pub image : String
  pub tty : Bool
  pub stop_signal : String
  pub config_image : String
  pub labels : Labels
  pub running : Bool
  pub memory : ℤ
  pub nano_cpus : ℤ
  pub cpu_quota : ℤ
  pub cpu_period : ℤ
  pub restart_policy : RestartPolicy
  pub status : String
  pub oom_killed : Bool
  pub exit_code : ℕ
  pub started_at : String
  pub finished_at : String
  pub health : Option Health
  pub restart_count : ℕ

abbrev period_of : Option ℕ → ℕ
period_of none = 100000
period_of (some n) = n

-- `CPULimit`, in billionths of a CPU, where the code has CPUs in a float64. A period is at most a second, so
-- a positive quota is not rounded to 0.
unfoldable pub cpu_limit : ContainerInspect → ℕ
cpu_limit c = elim (positive c.nano_cpus) [
  | some n ↦ n
  | none ↦ elim (positive c.cpu_quota) [
    | some q ↦ q * 1000000000 / period_of (positive c.cpu_period)
    | none ↦ 0
  ]
]

-- The numbers of `Stats` that the engine reads.
pub record Stats : Type 0 where
  pub usage : ℕ
  pub limit : ℕ
  pub stats : Dict String ℕ
  pub periods : ℕ
  pub throttled_periods : ℕ

unfoldable pub memory_used : Stats → ℕ
memory_used s =
    let inactive : ℕ = elim (lookup "total_inactive_file" s.stats) [
      | some n ↦ n
      | none ↦ or_else (lookup "inactive_file" s.stats) 0
    ] in
    if ltb s.usage inactive then 0 else s.usage - inactive

-- `time.Parse(time.RFC3339Nano, _)`, with the year, and "%d".
pub record Formats : Type 0 where
  pub parse_rfc3339 : String → Option (ℕ × ℕ)
  pub decimal : ℕ → String

unfoldable pub parse_time : Formats → String → ℕ
parse_time f s = elim (f.parse_rfc3339 s) [
  | none ↦ 0
  | some (year, t) ↦ if leb year 1 then 0 else t
]

unfoldable pub restart_policy_text : Formats → RestartPolicy → String
restart_policy_text f rp = if is_empty rp.name then "" else elim (positive rp.maximum_retry_count) [
  | none ↦ rp.name
  | some n ↦ str_append (str_append rp.name ":") (f.decimal n)
]

abbrev last_output : List String → String
last_output [] = ""
last_output (x ∷ []) = x
last_output (x ∷ y ∷ xs) = last_output (y ∷ xs)

-- The fields about health are those of the zero value where there is no health check.
abbrev with_health : Option Health → ContainerSnapshot → ContainerSnapshot
with_health none s = s
with_health (some h) s = record s {
  health_status = h.status;
  health_failing_streak = h.failing_streak;
  health_last_output = last_output h.log;
}

unfoldable pub to_snapshot : Formats → String → ContainerInspect → ContainerSnapshot
unfolding parse_time restart_policy_text
to_snapshot f name inspect = with_health inspect.health (record no_container {
  id = inspect.id;
  name = name;
  status = inspect.status;
  restart_count = inspect.restart_count;
  exit_code = inspect.exit_code;
  oom_killed = inspect.oom_killed;
  started_at = parse_time f inspect.started_at;
  finished_at = parse_time f inspect.finished_at;
  image = inspect.config_image;
  image_id = inspect.image;
  created = parse_time f inspect.created;
  restart_policy = restart_policy_text f inspect.restart_policy;
  labels = relevant_labels inspect.labels;
  tty = inspect.tty;
  memory_max = or_else (positive inspect.memory) 0;
})
