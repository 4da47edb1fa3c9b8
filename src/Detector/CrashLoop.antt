-- ===== src/Detector/CrashLoop.antt =====
-- internal/detector/crashloop.go. The mutex is not modelled: a method is one step.
pub mod Episodes
pub mod Restore
pub mod Tests
use nodux.Base.{
  ℕ, ◌+◌, Bool, true, false, not, ◌&&◌, ◌||◌, String, List, [], ◌∷◌, ◌++◌, Option, none, some,
  string_eq, nat_eq, ◌==◌, if◌then◌else◌, ltb, or_else, select, length, is_zero,
}
use nodux.Dict.{Dict, lookup, insert, delete, overlay}
use nodux.Detector.Types.{
  ContainerEvent, ContainerSnapshot, Issue, Message, Labels, Action, start, die, destroy, literal,
  number, duration, no_issue, no_container, severity_critical,
}
use nodux.Detector.Labels.{Parsers, label_positive_int, label_duration}
use nodux.Detector.Exit.{StopTracker, observe, flag}

pub record CrashLoopState : Type 0 where
  pub restarts : List ℕ
  pub firing : Bool
  pub threshold : ℕ
  pub window : ℕ

pub record CrashLoopDetector : Type 0 where
  pub threshold : ℕ
  pub window : ℕ
  pub stops : StopTracker
  pub crashed : Dict String ℕ
  pub state : Dict String CrashLoopState

unfoldable pub new : ℕ → ℕ → CrashLoopDetector
new threshold window = record {
  threshold = threshold;
  window = window;
  stops = [];
  crashed = [];
  state = [];
}

-- `prune(now.Add(-st.Window))`: the restarts after that time are kept.
unfoldable pub prune : ℕ → CrashLoopState → CrashLoopState
prune now st = record st { restarts = select (λ t. ltb now (t + st.window)) st.restarts }

unfoldable pub forget : String → CrashLoopDetector → CrashLoopDetector
forget id d = record d {
  state = delete id d.state;
  crashed = delete id d.crashed;
  stops = delete id d.stops;
}

abbrev message : ContainerSnapshot → CrashLoopState → ℕ → Message
message s st restarts =
    if is_zero restarts
    then literal "container stopped after crash-looping (status: "
      ∷ literal s.status
      ∷ literal ")"
      ∷ []
    else literal "container restarted "
      ∷ number restarts
      ∷ literal " times in the last "
      ∷ duration st.window
      ∷ literal " after crashing"
      ∷ []

unfoldable pub issue : ContainerSnapshot → CrashLoopState → ℕ → ℕ → Issue
issue s st restarts at = record no_issue {
  detector = "crashloop";
  severity = severity_critical;
  message = message s st restarts;
  container = s;
  detected_at = at;
}

-- `Check` on the state that it holds, pruned.
unfoldable pub check_state :
    ℕ → ContainerSnapshot → CrashLoopState → CrashLoopDetector → Option Issue × CrashLoopDetector
check_state now s st d =
    let drop_it = record d { state = delete s.id d.state } in
    if not st.firing && ltb (length st.restarts) st.threshold
    then (
      none,
      if is_zero (length st.restarts) then drop_it else record d { state = insert s.id st d.state },
    )
    else if is_zero (length st.restarts) && s.status == "running"
    then (none, drop_it)
    else (
      some (issue s st (length st.restarts) now),
      record d { state = insert s.id (record st { firing = true }) d.state },
    )

unfoldable pub check : ℕ → ContainerSnapshot → CrashLoopDetector → Option Issue × CrashLoopDetector
check now s d = elim (lookup s.id d.state) [
  | none ↦ (none, d)
  | some st ↦ check_state now s (prune now st) d
]

module _ (p : Parsers) where
  unfoldable pub new_state : Labels → CrashLoopDetector → CrashLoopState
  new_state labels d = record {
    restarts = [];
    firing = false;
    threshold = or_else (label_positive_int p labels "nodux.crashloop.threshold") d.threshold;
    window = positive_or d.window (label_duration p labels "nodux.crashloop.window");
  }
    where
      positive_or : ℕ → Option ℕ → ℕ
      positive_or w none = w
      positive_or w (some v) = if is_zero v then w else v

  -- The state with one more restart.
  unfoldable pub restart : ContainerEvent → CrashLoopDetector → CrashLoopState
  restart ev d =
      let st = or_else (lookup ev.id d.state) (new_state ev.labels d) in
      prune ev.time (record st { restarts = st.restarts ++ ev.time ∷ [] })

  -- A start after a crash.
  unfoldable pub restarted :
      ContainerEvent → ℕ → CrashLoopDetector → Option Issue × CrashLoopDetector
  restarted ev exit_code d =
      let st = restart ev d in
      if st.firing || ltb (length st.restarts) st.threshold
      then (none, record d { state = insert ev.id st d.state })
      else (
        some (
            issue
              (record no_container {
                id = ev.id;
                name = ev.name;
                exit_code = exit_code;
                labels = ev.labels;
              })
              st (length st.restarts) ev.time),
        record d { state = insert ev.id (record st { firing = true }) d.state },
      )

  -- The `switch` of `HandleEvent`, after the event is observed.
  unfoldable pub handle_action :
      Action → ContainerEvent → CrashLoopDetector → Option Issue × CrashLoopDetector
  handle_action die ev d = (
    none,
    if flag ev.id d.stops
        then record d { crashed = delete ev.id d.crashed }
        else record d { crashed = insert ev.id ev.exit_code d.crashed },
  )
  handle_action destroy ev d = (none, forget ev.id d)
  handle_action start ev d =
      let d' = record d { crashed = delete ev.id d.crashed } in
      elim (lookup ev.id d.crashed) [
        | none ↦ (none, d')
        | some exit_code ↦ restarted ev exit_code d'
      ]
  handle_action _ ev d = (none, d)

  unfoldable pub handle_event :
      ContainerEvent → CrashLoopDetector → Option Issue × CrashLoopDetector
  handle_event ev d = handle_action ev.action ev (record d { stops = observe ev d.stops })

pub record CrashLoopSaved : Type 0 where
  pub stops : StopTracker
  pub crashed : Dict String ℕ
  -- A saved state may be null.
  pub state : Dict String (Option CrashLoopState)

abbrev pub all_some : Dict String CrashLoopState → Dict String (Option CrashLoopState)
all_some [] = []
all_some ((id, st) ∷ m) = (id, some st) ∷ all_some m

unfoldable pub save_state : CrashLoopDetector → CrashLoopSaved
save_state d = record { stops = d.stops; crashed = d.crashed; state = all_some d.state }

-- The loop over the saved states.
unfoldable pub load_states :
    Dict String (Option CrashLoopState) → Dict String CrashLoopState → Dict String CrashLoopState
load_states [] m = m
load_states ((id, none) ∷ saved) m = load_states saved m
load_states ((id, some st) ∷ saved) m =
    load_states saved (if is_zero st.threshold || is_zero st.window then m else insert id st m)

unfoldable pub load_state : CrashLoopSaved → CrashLoopDetector → CrashLoopDetector
load_state saved d = record d {
  stops = overlay saved.stops d.stops;
  crashed = overlay saved.crashed d.crashed;
  state = load_states saved.state d.state;
}
