-- ===== src/Engine/Persist/Tests.antt =====
-- internal/engine/persist.go: a restart with one open episode and a position in the event stream.
use nodux.Base.{
  ◌≡◌, refl, Bool, true, false, String, [], ◌∷◌, Option, none, some, if◌then◌else◌, ◌==◌, string_eq,
  arith,
}
use nodux.Dict.{lookup}
use nodux.Incident.{new}
use nodux.Engine.{ActiveAlert}
use nodux.Engine.Tests.{idle, disk_full, die, at_boot}
use nodux.Engine.Events.{Position}
use nodux.Engine.Replay.{connect}
use nodux.Engine.Persist.{Saver, Setup, save_state, restore, known_detectors}
use nodux.Engine.Persist.Episodes.{remembered, restore-save_state}
use nodux.Engine.Persist.Resume.{resumed, connect-resumed}

abbrev setup : Setup
setup = record {
  detectors = "exit" ∷ [];
  level_events = [];
  host_detectors = "disk" ∷ [];
  probes = [];
  expected = none;
  exclude_containers = [];
}

abbrev before_slash : String → String
before_slash s = if s == "disk//" then "disk" else s

abbrev full : ActiveAlert
full = record { issue = disk_full; since = 100; container_id = ""; notified = true }

abbrev at_event : Position
at_event = record { since = 500; last = 500; handled = "die/c1" ∷ [] }

abbrev fresh : Saver String
fresh = record {
  engine = idle;
  events = at_boot;
  grouper = new (record { enabled = true; group_wait = 30; window = 600 });
  last_seen = [];
  stateful = [];
  save_failing = false;
}

abbrev old : Saver String
old = record fresh { engine = record idle { active = ("disk//", full) ∷ [] }; events = at_event }

abbrev no_match : String → String → Option Bool
no_match pattern name = some false

restore-save_state_example :
    lookup "disk//"
      (restore no_match before_slash setup 900
        (some (save_state 800 801 true old).0)
        fresh).engine.active
    ≡ remembered before_slash setup
        (known_detectors setup idle)
        "disk//"
        (lookup "disk//" old.engine.active)
unfolding lookup
restore-save_state_example =
    restore-save_state no_match before_slash setup 800 801 900 true old fresh "disk//" (refl, tt)
      refl

connect-resumed_example :
    (connect (resumed 900 at_event) ((die ∷ []) ∷ [])).0 ≡ (connect at_event ((die ∷ []) ∷ [])).0
connect-resumed_example =
    connect-resumed 900 at_event ((die ∷ []) ∷ []) refl (omega arith) (omega arith) (omega arith)
