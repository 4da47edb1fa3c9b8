-- ===== src/Detector/CrashLoop/Tests.antt =====
-- internal/detector/crashloop.go: a container that restarts after a crash, as the input of the instance.
use nodux.Base.{ℕ, List, string_eq, ◌≡◌, refl, true, [], ◌∷◌, is_some, arith, select}
use nodux.Detector.Types.{ContainerSnapshot, no_container, start}
use nodux.Detector.Exit.{observe}
use nodux.Detector.Labels.{label_positive_int, label_duration}
use nodux.Detector.Exit.Tests.{no_parsers, event}
use nodux.Detector.CrashLoop.{
  CrashLoopDetector, new, check, handle_event, handle_action, restarted, restart, new_state, prune,
}
use nodux.Dict.{lookup, insert, delete}
use nodux.Detector.CrashLoop.{save_state, load_state}
use nodux.Detector.CrashLoop.Restore.{lookup-load_state}
use nodux.Detector.CrashLoop.Episodes.{run_checks, handle_event-check}

abbrev crashed_once : CrashLoopDetector
crashed_once = record (new 1 60) { crashed = ("c1", 139) ∷ [] }

abbrev web : ContainerSnapshot
web = record no_container { id = "c1"; status = "running" }

abbrev checks : List (ℕ × ContainerSnapshot)
checks = (110, web) ∷ (120, record web { id = "c2" }) ∷ []

handle_event-check_example :
    is_some
      (check 150 web (run_checks checks (handle_event no_parsers (event start) crashed_once).1)).0
    ≡ true
unfolding new handle_event handle_action restarted restart new_state prune label_positive_int
    label_duration lookup insert delete select observe
handle_event-check_example =
    handle_event-check no_parsers (event start) crashed_once
      (record { restarts = 100 ∷ []; firing = true; threshold = 1; window = 60 }) checks web 150
      refl refl (omega arith) (omega arith, (omega arith, tt)) refl (omega arith)

abbrev looping : CrashLoopDetector
looping = record crashed_once {
  state = ("c2", record { restarts = 90 ∷ []; firing = true; threshold = 3; window = 60 }) ∷ [];
}

lookup-load_state_example :
    (lookup "c2" (load_state (save_state looping) (new 5 600)).stops ≡ lookup "c2" looping.stops)
    × (lookup "c2" (load_state (save_state looping) (new 5 600)).crashed
        ≡ lookup "c2" looping.crashed)
    × (lookup "c2" (load_state (save_state looping) (new 5 600)).state ≡ lookup "c2" looping.state)
unfolding lookup new
lookup-load_state_example = lookup-load_state looping 5 600 "c2" tt (refl, tt) (refl, tt) (refl, tt)
