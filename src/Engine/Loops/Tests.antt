-- ===== src/Engine/Loops/Tests.antt =====
-- internal/engine/engine.go: a container that crashes and is removed, and a daemon that stops answering, as the
-- input of the instances.
use nodux.Base.{
  ℕ, ◌≡◌, ◌*◌, ◌^◌, refl, arith, true, false, List, [], ◌∷◌, Option, none, some, pos, length, min,
  any, string_eq,
}
use nodux.Detector.Types.{Issue, ContainerEvent, literal, no_issue, no_container, severity_critical}
use nodux.Detector.Exit.Tests.{no_parsers}
use nodux.Detector.Labels.{excluded, label_bool, relevant_labels}
use nodux.Dict.{lookup, retain}
use nodux.Engine.Tests.{idle, same_text, disk_full}
use nodux.Engine.Inspect.{ContainerInspect}
use nodux.Engine.Resolved.{belongs}
use nodux.Engine.Report.{Redactor}
use nodux.Engine.Report.Scrubbed.{IsClean}
use nodux.Engine.Handle.{handle_event}
use nodux.Engine.Notice.{Event, EventDetector, Watch, State, event_labels, event_excluded}
use nodux.Engine.Handle.Destroyed.{handle_event-belongs}
use nodux.Engine.Poll.{poll_once}
use nodux.Engine.Look.{Rounds, Polled, Listed, Detector}
use nodux.Engine.Poll.Gone.{poll_once-belongs}
use nodux.Engine.Loops.{Loops, PollLoop, poll, probe, event, poll_round, run, max_backoff}
use nodux.Engine.Loops.Backoff.{poll_rounds, poll_rounds-wait}
use nodux.Engine.Loops.Outage.{IsPlain, daemon_open, outage, is_long, run_polls}
use nodux.Engine.Loops.Daemon.{run_polls-daemon_open}
use nodux.Engine.Loops.Scrubbed.{run-IsClean}

-- A detector that counts the crashes that it reports.
abbrev crashed : ContainerEvent → ℕ → Option Issue × ℕ
crashed ev n = (
  some (record no_issue {
    detector = "crashloop";
    severity = severity_critical;
    container = record no_container { id = ev.id; name = ev.name };
  }),
  n,
)

abbrev crash_loop : EventDetector ℕ
crash_loop = record { name = "crashloop"; is_level = true; handle_event = crashed; confirm = none }

abbrev inspected : ContainerInspect
inspected = record {
  id = "c1";
  created = "";
  image = "";
  tty = false;
  stop_signal = "";
  config_image = "";
  labels = [];
  running = true;
  memory = pos 0;
  nano_cpus = pos 0;
  cpu_quota = pos 0;
  cpu_period = pos 0;
  restart_policy = record { name = ""; maximum_retry_count = pos 0 };
  status = "running";
  oom_killed = false;
  exit_code = 1;
  started_at = "";
  finished_at = "";
  health = none;
  restart_count = 1;
}

abbrev masked : Redactor
masked = record { message = λ m. literal "masked" ∷ []; line = λ l. "masked" }

abbrev watch : Watch ℕ
watch = record {
  exclude_containers = "db" ∷ [];
  event_detectors = crash_loop ∷ [];
  container_oom = none;
  deploy_grace = 0;
  parsers = no_parsers;
  affixes = record { to_upper = λ s. s; cut_prefix = λ p s. none };
  cut_colon = λ s. none;
  atoi_exit = λ s. none;
  path_match = same_text;
  utf8 = record { bytes = λ s. []; text = λ bs. "" };
  formats = record { parse_rfc3339 = λ s. none; decimal = λ n. "" };
  redactor = masked;
  inspect_killed = λ id. some inspected;
  inspect = λ id. some inspected;
  container_logs = λ id n tty. "password=hunter2" ∷ [];
}

abbrev start : State ℕ
start = record { engine = idle; detectors = 0 }

abbrev removed : Event
removed = record { action = "destroy"; id = "c1"; attributes = ("name", "api") ∷ [] }

-- The container crashes and is removed at once.
handle_event-belongs_example :
    belongs "c1" "crashloop/c1" (handle_event watch 200 removed 199 start).engine ≡ false
unfolding any lookup excluded label_bool event_labels relevant_labels retain event_excluded
handle_event-belongs_example =
    handle_event-belongs watch 200 removed 199 start "crashloop/c1" refl refl refl

abbrev listed : Listed
listed = record {
  id = "c2";
  names = "/web" ∷ [];
  state = "running";
  labels = [];
  summary = record { image = "web"; image_id = "sha256:1"; created = 0 };
}

abbrev unhealthy : Detector ℕ
unhealthy = record { name = "health"; check = λ s n. (some disk_full, n); forget = none }

abbrev rounds : Rounds ℕ
rounds = record {
  watch = watch;
  detectors = unhealthy ∷ [];
  expected = none;
  collect_stats = false;
  collect_throttling = false;
  sample_interval = 0;
  ping = true;
  list_containers = some (listed ∷ []);
  inspect_polled = λ id. some inspected;
  container_stats = λ id. none;
}

abbrev polled : Polled ℕ
polled = record { state = start; last_seen = "c1" ∷ "c2" ∷ []; next_sample = 0; recorded = [] }

poll_once-belongs_example :
    belongs "c1" "health/c1" (poll_once rounds 300 polled).1.state.engine ≡ false
unfolding any
poll_once-belongs_example =
    poll_once-belongs rounds 300 polled (listed ∷ []) "c1" "health/c1" refl refl refl refl

abbrev silent : Loops ℕ
silent = record {
  rounds = record rounds { ping = false };
  host_detectors = [];
  host_oom = none;
  probes = [];
  min_backoff = 1000000000;
  poll_interval = 15000000000;
  error = "connection refused";
  inspect_late = λ id. none;
  inspect_probed = λ id. none;
}

abbrev looping : PollLoop ℕ
looping = record {
  polled = polled;
  backoff = 1000000000;
  down_since = none;
  healthy = true;
  wait = 0;
}

abbrev answering : Loops ℕ
answering = record silent { rounds = rounds }

run-IsClean_example :
    IsClean masked "box"
      (run
        (event answering 200 removed 199
          ∷ poll answering 300
          ∷ poll silent 400
          ∷ probe silent 410
          ∷ [])
        looping).polled.state.engine
run-IsClean_example =
    run-IsClean masked "box"
      (event answering 200 removed 199
        ∷ poll answering 300
        ∷ poll silent 400
        ∷ probe silent 410
        ∷ [])
      looping (refl, (refl, (refl, (refl, tt)))) (record { queued = tt; named = refl })

abbrev polls : List ℕ
polls = 10 ∷ 20 ∷ 30 ∷ []

poll_rounds-wait_example :
    (poll_round silent 40 (poll_rounds silent polls looping)).wait
    ≡ min (looping.backoff * 2 ^ length polls) max_backoff
poll_rounds-wait_example = poll_rounds-wait silent polls 40 looping refl (omega arith)

abbrev evening : List (Loops ℕ × ℕ)
evening = (silent, 100) ∷ (answering, 110) ∷ (silent, 120) ∷ (silent, 150) ∷ (silent, 185) ∷ []

silent-IsPlain : IsPlain silent
silent-IsPlain = record {
  host = tt;
  container = (refl, tt);
  lists = (λ e. absurd (cc ((string_eq.test_iff "c2" "").1 e)), tt);
}

answering-IsPlain : IsPlain answering
answering-IsPlain = record {
  host = tt;
  container = silent-IsPlain.container;
  lists = silent-IsPlain.lists;
}

run_polls-daemon_open_example :
    daemon_open (run_polls evening looping).polled ≡ is_long 60 (outage none evening looping)
unfolding lookup
run_polls-daemon_open_example =
    run_polls-daemon_open evening looping
      (
        silent-IsPlain,
        (answering-IsPlain, (silent-IsPlain, (silent-IsPlain, (silent-IsPlain, tt)))),
      )
      (omega arith)
      (
        λ e. absurd (cc ((string_eq.test_iff "c1" "").1 e)),
        (λ e. absurd (cc ((string_eq.test_iff "c2" "").1 e)), tt),
      )
      refl refl
