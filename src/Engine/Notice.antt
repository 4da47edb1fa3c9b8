-- ===== src/Engine/Notice.antt =====
-- internal/engine/engine.go, the first half of handleEvent: what an event of the daemon says.
use nodux.Base.{
  ℕ, Bool, true, false, ◌&&◌, ◌||◌, String, List, [], ◌∷◌, Option, none, some, string_eq, nat_eq,
  ◌==◌, if◌then◌else◌, is_zero, or_else, any,
}
use nodux.Dict.{lookup}
use nodux.Detector.Types.{
  ContainerEvent, ContainerSnapshot, Issue, Action, create, start, kill, oom, die, destroy,
  health_status, other, Labels, label,
}
use nodux.Detector.Labels.{Parsers, excluded, relevant_labels}
use nodux.Detector.Signal.{Affixes, trim_prefix, parse_signal}
use nodux.Detector.Truncate.{Utf8}
use nodux.Engine.{Engine}
use nodux.Engine.Report.{Redactor, Logs}
use nodux.Engine.Inspect.{ContainerInspect, Formats}

pub record Event : Type 0 where
  pub action : String
  pub id : String
  pub attributes : Labels

-- An event detector works on the state of all detectors. `is_level`: it implements `Detector` too.
-- `confirm`: it implements `Confirmer`.
pub record EventDetector (D : Type 0) : Type 0 where
  pub name : String
  pub is_level : Bool
  pub handle_event : ContainerEvent → D → Option Issue × D
  pub confirm : Option (ContainerSnapshot → D → Option Issue × D)

-- The fields of `Options` that are fixed, what the code calls outside the repository, and what the daemon
-- answers: to the question about a container that is killed, and to the one about a container with an alert.
pub record Watch (D : Type 0) : Type 0 where
  pub exclude_containers : List String
  pub event_detectors : List (EventDetector D)
  pub container_oom : Option (D → D)
  pub deploy_grace : ℕ
  pub parsers : Parsers
  pub affixes : Affixes
  -- `strings.Cut(_, ":")`.
  pub cut_colon : String → Option (String × String)
  -- `strconv.Atoi` on an exit code, which is not negative.
  pub atoi_exit : String → Option ℕ
  pub path_match : String → String → Option Bool
  pub utf8 : Utf8
  pub formats : Formats
  pub redactor : Redactor
  pub inspect_killed : String → Option ContainerInspect
  pub inspect : String → Option ContainerInspect
  pub container_logs : Logs

pub record State (D : Type 0) : Type 0 where
  pub engine : Engine
  pub detectors : D

pub record Hit (D : Type 0) : Type 0 where
  pub found_by : EventDetector D
  pub issue : Issue

unfoldable pub action_of : String → Action
action_of s =
    if s == "create"
    then create
    else if s == "start"
    then start
    else if s == "kill"
    then kill
    else if s == "oom"
    then oom
    else if s == "die"
    then die
    else if s == "destroy"
    then destroy
    else if s == "health_status"
    then health_status
    else other

abbrev pub is_kill : Action → Bool
is_kill kill = true
is_kill _ = false

abbrev pub ends_run : Action → Bool
ends_run die = true
ends_run oom = true
ends_run _ = false

abbrev pub is_destroy : Action → Bool
is_destroy destroy = true
is_destroy _ = false

module _ {D : Type 0} (w : Watch D) where
  -- A name is both a key of the map and a detector's.
  unfoldable pub level_events : String → Bool
  level_events name = any (λ d. d.is_level && d.name == name) w.event_detectors

  unfoldable pub event_excluded : String → Labels → Bool
  event_excluded name labels =
      any (λ n. n == name) w.exclude_containers || excluded w.parsers labels

  -- The loop of `eventExitCode` over the two keys.
  unfoldable pub event_exit_code : Labels → List String → ℕ
  event_exit_code attrs [] = 0
  event_exit_code attrs (key ∷ keys) =
      let rest = event_exit_code attrs keys in
      elim (lookup key attrs) [
        | none ↦ rest
        | some v ↦ elim (w.atoi_exit v) [ none ↦ rest | some code ↦ code ]
      ]

  -- Podman does not put labels in the attributes of an event; the last poll saw them.
  unfoldable pub event_labels : Event → Engine → Labels
  event_labels ev e = or_empty (relevant_labels ev.attributes)
    where
      or_empty : Labels → Labels
      or_empty [] = or_else (lookup ev.id e.labels) []
      or_empty (x ∷ xs) = x ∷ xs

  -- The event as the daemon tells it.
  unfoldable pub raw_event : Event → ℕ → Labels → ContainerEvent
  unfolding event_exit_code action_of
  raw_event ev t labels = record {
    id = ev.id;
    name = trim_prefix w.affixes "/" (label ev.attributes "name");
    action = action_of ev.action;
    health_status = "";
    exit_code = event_exit_code ev.attributes ("exitCode" ∷ "containerExitCode" ∷ []);
    signal = parse_signal w.parsers w.affixes (label ev.attributes "signal");
    stop_signal = 0;
    time = t;
    labels = labels;
  }

  abbrev plain_health : Event → ContainerEvent → ContainerEvent
  plain_health ev cev =
      if ev.action == "health_status"
      then record cev { health_status = label ev.attributes "health_status" }
      else cev

  -- "health_status: unhealthy" of Docker, and Podman's attribute.
  unfoldable pub with_health_status : Event → ContainerEvent → ContainerEvent
  with_health_status ev cev = elim (w.cut_colon ev.action) [
    | none ↦ plain_health ev cev
    | some (action, status) ↦
        if action == "health_status"
        then record cev { action = health_status; health_status = w.parsers.trim_space status }
        else plain_health ev cev
  ]

  unfoldable pub with_stop_signal : ContainerEvent → ContainerEvent
  with_stop_signal cev =
      if is_kill cev.action
      then elim (w.inspect_killed cev.id) [
        | none ↦ cev
        | some inspect ↦
            let n = parse_signal w.parsers w.affixes inspect.stop_signal in
            record cev { stop_signal = if is_zero n then 15 else n }
      ]
      else cev

  unfoldable pub container_event : Event → ℕ → Labels → ContainerEvent
  unfolding raw_event with_health_status with_stop_signal
  container_event ev t labels = with_stop_signal (with_health_status ev (raw_event ev t labels))
