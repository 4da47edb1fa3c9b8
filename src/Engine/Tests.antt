-- ===== src/Engine/Tests.antt =====
-- internal/engine/engine.go: an outage under a silence and a broken event stream, as the input of the
-- instances.
use nodux.Base.{
  ◌≡◌, true, refl, arith, Bool, false, not, ◌&&◌, String, List, [], ◌∷◌, Option, none, some,
  string_eq, ◌==◌, if◌then◌else◌, count,
}
use nodux.Detector.Types.{Issue, no_issue, severity_critical}
use nodux.Engine.{Engine}
use nodux.Engine.Told.{told, hears_all, AllProper}
use nodux.Engine.Alternation.{Call, sets, flushes, run, run-alternates}
use nodux.Engine.Events.{StreamEvent, Position, same_event, seen, accept, consume}
use nodux.Dict.{retain, lookup}
use nodux.Engine.Upkeep.{cooling_down}
use nodux.Engine.Cooldown.{cool_all, cooling_down-cool_all}
use nodux.Incident.{Config, new}
use nodux.Incident.Counts.{batch_alerts}
use nodux.Engine.Dispatch.{Input, queued, woken, summarized, dispatch}
use nodux.Engine.Dispatch.Delivery.{alerts_in, dispatch_delivers_once}
use nodux.Incident.{Batch}
use nodux.Engine.Dispatch.Send.{Outbox, Delivery, deliver}
use nodux.Engine.Dispatch.Accounts.{Accounts, all_batches, deliver-Accounts}
use nodux.Engine.Replay.{connect, sent, Replays, connect_handles_once}

abbrev pub same_text : String → String → Option Bool
same_text pattern s = some (pattern == s)

abbrev pub idle : Engine
idle = record {
  opts = record { hostname = "box"; alert_cooldown = 300; docker_down_after = 60 };
  active = [];
  last_alert = [];
  images = [];
  images_pruned = 0;
  labels = [];
  starts = [];
  last_runs = [];
  containers = [];
  silences = none;
  queue = [];
}

abbrev pub disk_full : Issue
disk_full = record no_issue { detector = "disk"; severity = severity_critical; resource = "/var" }

abbrev by_resource : Issue → String
by_resource i = i.resource

abbrev outage : List Call
outage =
    sets 100 "disk" (disk_full ∷ []) by_resource ∷ flushes 110 ∷ sets 120 "disk" [] by_resource ∷ []

run-alternates_example :
    AllProper "disk//var" false (run same_text idle outage).0
    × (told "disk//var" (run same_text idle outage).1
        ≡ hears_all "disk//var" false (run same_text idle outage).0)
run-alternates_example =
    run-alternates same_text idle outage "disk//var" refl ((refl, tt), (tt, (tt, tt)))

abbrev pub die : StreamEvent
die = record { time = 10; action = "die"; actor_id = "c1" }

abbrev start : StreamEvent
start = record { time = 10; action = "start"; actor_id = "c1" }

abbrev pub at_boot : Position
at_boot = record { since = 5; last = 0; handled = [] }

-- The stream breaks after the die event, and is replayed from then on.
abbrev broken : List (List StreamEvent)
broken = (die ∷ []) ∷ (die ∷ start ∷ []) ∷ []

broken-Replays : Replays at_boot broken
unfolding consume accept
broken-Replays = ((omega arith, tt), ((omega arith, (omega arith, tt)), tt))

connect_handles_once_example :
    count (same_event die) (connect at_boot broken).0
    ≡ (if not (seen at_boot die) && sent die broken then 1 else 0)
connect_handles_once_example = connect_handles_once at_boot broken die (omega arith) broken-Replays

abbrev oom_kill : Issue
oom_kill = record no_issue { detector = "oom" }

cooling_down-cool_all_example :
    (cooling_down 200 oom_kill
      (cool_all ((150, disk_full) ∷ []) (cooling_down 100 oom_kill idle).1)).0
    ≡ true
unfolding cooling_down retain lookup
cooling_down-cool_all_example =
    cooling_down-cool_all 100 200 oom_kill oom_kill ((150, disk_full) ∷ []) idle tt (omega arith)
      refl (omega arith, tt) (omega arith) refl

abbrev grouping : Config
grouping = record { enabled = true; group_wait = 30; window = 600 }

abbrev any_alert : Issue → Bool
any_alert i = true

abbrev inputs : List Input
inputs =
    queued 100 disk_full 100
    ∷ queued 105 (record disk_full { silenced = true }) 105
    ∷ summarized 1 "the disk is full"
    ∷ woken 131
    ∷ []

dispatch_delivers_once_example :
    count any_alert (batch_alerts (dispatch (new grouping) inputs))
    ≡ count any_alert (alerts_in inputs)
dispatch_delivers_once_example =
    dispatch_delivers_once any_alert grouping inputs (λ n i. refl)
      (omega arith, (omega arith, (tt, (tt, tt))))

abbrev batch : Batch
batch = record {
  incident_id = 1;
  update = false;
  alerts = disk_full ∷ record disk_full { silenced = true } ∷ [];
  earlier = [];
  prev_summary = "";
}

abbrev delivery : Delivery
delivery = record {
  analyzes = true;
  ask = λ b. some "the disk is full";
  actions = "slack" ∷ "ntfy" ∷ [];
  has_history = true;
  now = 200;
}

abbrev nothing_sent : Outbox
nothing_sent = record { counts = λ k. 0; grouper = new grouping; sent = []; recorded = [] }

deliver-Accounts_example :
    Accounts delivery
      (all_batches ((batch ∷ []) ∷ (batch ∷ []) ∷ []))
      nothing_sent
      (deliver delivery ((batch ∷ []) ∷ (batch ∷ []) ∷ []) nothing_sent)
deliver-Accounts_example = deliver-Accounts delivery ((batch ∷ []) ∷ (batch ∷ []) ∷ []) nothing_sent
