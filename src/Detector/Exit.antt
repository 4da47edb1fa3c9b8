-- ===== src/Detector/Exit.antt =====
-- internal/detector/signals.go (the stop tracker) and exit.go. Exit codes and signals are natural
-- numbers: the daemon reports them so.
pub mod History
pub mod Tests
use nodux.Base.{
  ℕ, ◌-◌, Bool, true, false, ◌&&◌, ◌||◌, String, List, [], ◌∷◌, Option, none, some, string_eq,
  nat_eq, ◌==◌, if◌then◌else◌, ltb, or_else, any, ℤ, pos, negsuc,
}
use nodux.Dict.{Dict, lookup, insert, delete, overlay}
use nodux.Detector.Types.{
  ContainerEvent, Issue, Message, Action, start, kill, oom, die, destroy, literal, number, no_issue,
  no_container, severity_warning,
}
use nodux.Detector.Labels.{Parsers, label_ints}

unfoldable pub is_stop_request : ContainerEvent → Bool
is_stop_request ev =
    ev.signal == 0
    || ev.signal == 2
    || ev.signal == 3
    || ev.signal == 9
    || ev.signal == 15
    || ev.signal == ev.stop_signal

abbrev pub StopTracker : Type 0
StopTracker = Dict String Bool

abbrev pub observe_action : Action → ContainerEvent → StopTracker → StopTracker
observe_action start ev t = delete ev.id t
observe_action destroy ev t = delete ev.id t
observe_action kill ev t = if is_stop_request ev then insert ev.id true t else t
observe_action _ ev t = t

unfoldable pub observe : ContainerEvent → StopTracker → StopTracker
observe ev t = observe_action ev.action ev t

-- A missing key reads as false.
abbrev pub flag : String → Dict String Bool → Bool
flag id m = or_else (lookup id m) false

pub record ExitDetector : Type 0 where
  pub ignore_codes : List ℤ
  pub skip_oom : Bool
  pub stops : StopTracker
  pub oomed : Dict String Bool

unfoldable pub new : List ℤ → Bool → ExitDetector
new ignore_exit_codes skip_oom = record {
  ignore_codes = ignore_exit_codes;
  skip_oom = skip_oom;
  stops = [];
  oomed = [];
}

unfoldable exit_code_hint : ℕ → Message
exit_code_hint code =
    if code == 125
    then literal " (docker run itself failed)" ∷ []
    else if code == 126
    then literal " (command not executable)" ∷ []
    else if code == 127
    then literal " (command not found)" ∷ []
    else if code == 137
    then literal " (SIGKILL from outside docker)" ∷ []
    else if code == 139
    then literal " (segmentation fault)" ∷ []
    else if ltb 128 code && ltb code 193
    then literal " (killed by signal " ∷ number (code - 128) ∷ literal ")" ∷ []
    else []

abbrev is_code : ℕ → ℤ → Bool
is_code n (pos m) = m == n
is_code n (negsuc m) = false

-- The literal that the detector returns.
unfoldable exit_issue : ContainerEvent → Bool → Issue
unfolding exit_code_hint
exit_issue ev oomed = record no_issue {
  detector = "exit";
  severity = severity_warning;
  message =
      literal "container exited unexpectedly with code "
      ∷ number ev.exit_code
      ∷ (if oomed then literal " (OOM killed)" ∷ [] else exit_code_hint ev.exit_code);
  container = record no_container {
    id = ev.id;
    name = ev.name;
    exit_code = ev.exit_code;
    oom_killed = oomed;
    labels = ev.labels;
  };
  detected_at = ev.time;
}

module _ (p : Parsers) where
  unfoldable pub ignored : ContainerEvent → ExitDetector → Bool
  ignored ev d = elim (label_ints p ev.labels "nodux.exit.ignore") [
    | some codes ↦ any (is_code ev.exit_code) codes
    | none ↦ any (is_code ev.exit_code) d.ignore_codes
  ]

  -- The `switch` of `HandleEvent`, after the event is observed.
  unfoldable pub handle_action :
      Action → ContainerEvent → ExitDetector → Option Issue × ExitDetector
  unfolding exit_issue
  handle_action start ev d = (none, record d { oomed = delete ev.id d.oomed })
  handle_action destroy ev d = (none, record d { oomed = delete ev.id d.oomed })
  handle_action oom ev d = (none, record d { oomed = insert ev.id true d.oomed })
  handle_action die ev d =
      if flag ev.id d.stops || (d.skip_oom && flag ev.id d.oomed) || ignored ev d
      then (none, d)
      else (some (exit_issue ev (flag ev.id d.oomed)), d)
  handle_action _ ev d = (none, d)

  unfoldable pub handle_event : ContainerEvent → ExitDetector → Option Issue × ExitDetector
  unfolding handle_action
  handle_event ev d = handle_action ev.action ev (record d { stops = observe ev d.stops })

abbrev pub ExitSaved : Type 0
ExitSaved = StopTracker × Dict String Bool

unfoldable pub save_state : ExitDetector → ExitSaved
save_state d = (d.stops, d.oomed)

unfoldable pub load_state : ExitSaved → ExitDetector → ExitDetector
load_state saved d = record d { stops = overlay saved.0 d.stops; oomed = overlay saved.1 d.oomed }
