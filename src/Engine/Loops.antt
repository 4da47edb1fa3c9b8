-- ===== src/Engine/Loops.antt =====
-- internal/engine/engine.go: one round of the poll loop, with the checks of the host and the alert about the
-- daemon, and one round of the probe loop. A round reads the clock once.
pub mod Backoff
pub mod Held
pub mod Outage
pub mod Daemon
pub mod Scrubbed
pub mod Tests
use nodux.Base.{
  ℕ, zero, suc, ◌+◌, ◌*◌, Bool, true, false, not, ◌&&◌, ◌||◌, String, List, [], ◌∷◌, ◌++◌, Option,
  none, some, string_eq, if◌then◌else◌, ltb, leb, is_empty, is_some, is_zero,
}
use nodux.Dict.{lookup}
use nodux.Detector.Types.{
  ContainerSnapshot, Issue, Message, literal, duration, span, printed, no_issue, severity_critical,
}
use nodux.Engine.{Engine}
use nodux.Engine.Track.{track, track_set, is_silenced, flush_deferred}
use nodux.Engine.Inspect.{ContainerInspect, to_snapshot}
use nodux.Engine.Handle.{report_to, handle_event}
use nodux.Engine.Notice.{Event, State}
use nodux.Engine.Poll.{poll_once}
use nodux.Engine.Look.{Rounds, Polled, set_engine}

pub record HostDetector (D : Type 0) : Type 0 where
  pub name : String
  pub check : D → List Issue × D

-- What the loops need beside the poll. `host_oom` is the check of the counter of the kernel.
-- `error` is the text of the error of a poll that failed, `inspect_late` the answer for an alert that a
-- silence held back, `inspect_probed` that for a probe.
pub record Loops (D : Type 0) : Type 0 where
  pub rounds : Rounds D
  pub host_detectors : List (HostDetector D)
  pub host_oom : Option (D → Option Issue × D)
  pub probes : List (HostDetector D)
  pub min_backoff : ℕ
  pub poll_interval : ℕ
  pub error : String
  pub inspect_late : String → Option ContainerInspect
  pub inspect_probed : String → Option ContainerInspect

abbrev pub max_backoff : ℕ
max_backoff = 30000000000

unfoldable pub next_backoff : ℕ → ℕ
next_backoff b = let twice = b * 2 in if ltb max_backoff twice then max_backoff else twice

abbrev pub daemon_key : String
daemon_key = "docker/daemon"

unfoldable pub daemon_issue : ℕ → ℕ → String → Issue
daemon_issue now since error = record no_issue {
  detector = "docker";
  severity = severity_critical;
  message =
      literal "docker daemon unreachable for " ∷ span since now ∷ literal ": " ∷ printed error ∷ [];
  resource = "daemon";
  detected_at = now;
}

-- The variables of `runPoll`, and whether the last poll worked. `wait` is how long the loop sleeps next.
pub record PollLoop (D : Type 0) : Type 0 where
  pub polled : Polled D
  pub backoff : ℕ
  pub down_since : Option ℕ
  pub healthy : Bool
  pub wait : ℕ

-- Since when the daemon is down, if it is down now.
abbrev pub down_from : Option ℕ → ℕ → ℕ
down_from none now = now
down_from (some t) now = t

module _ {D : Type 0} (w : Loops D) where
  -- One alert that belongs to no container.
  unfoldable pub report_host : Option Issue → State D → State D
  report_host none s = s
  report_host (some i) s = report_to w.rounds.watch "" false (i ∷ []) s

  unfoldable pub docker_down : ℕ → ℕ → State D → State D
  unfolding report_host
  docker_down now since s =
      if is_zero s.engine.opts.docker_down_after
        || ltb now (since + s.engine.opts.docker_down_after)
      then s
      else let (out, e) =
          track w.rounds.watch.path_match now daemon_key (some (daemon_issue now since w.error))
            none s.engine in
        report_host out (record s { engine = e })

  unfoldable pub docker_up : ℕ → State D → State D
  unfolding report_host
  docker_up now s =
      let (out, e) = track w.rounds.watch.path_match now daemon_key none none s.engine in
      report_host out (record s { engine = e })

  -- The loop over the host detectors.
  unfoldable pub check_host_detectors : ℕ → List (HostDetector D) → State D → State D
  check_host_detectors now [] s = s
  check_host_detectors now (d ∷ ds) s =
      let (issues, detectors) = d.check s.detectors in
      let (out, e) =
        track_set w.rounds.watch.path_match now d.name issues (λ i. i.resource) s.engine in
      check_host_detectors now ds
        (report_to w.rounds.watch "" false out (record { engine = e; detectors = detectors }))

  unfoldable pub report_oom : ℕ → Option Issue → State D → State D
  unfolding report_host
  report_oom now none s = s
  report_oom now (some issue) s =
      let (quiet, e) = is_silenced w.rounds.watch.path_match now issue s.engine in
      report_host (some (record issue { silenced = quiet })) (record s { engine = e })

  unfoldable pub check_host_oom : ℕ → State D → State D
  unfolding report_oom
  check_host_oom now s = elim w.host_oom [
    | none ↦ s
    | some check ↦
        let (found, detectors) = check s.detectors in
        report_oom now found (record s { detectors = detectors })
  ]

  unfoldable pub check_host : ℕ → State D → State D
  unfolding check_host_detectors check_host_oom
  check_host now s = check_host_oom now (check_host_detectors now w.host_detectors s)

  -- An alert of which only a container's name was known is filled in.
  unfoldable pub filled_late : Issue → Issue
  filled_late issue =
      if not (is_empty issue.container.id) && is_empty issue.container.status
      then elim (w.inspect_late issue.container.id) [
        | none ↦ issue
        | some inspect ↦ record issue {
          container = to_snapshot w.rounds.watch.formats issue.container.name inspect;
        }
      ]
      else issue

  -- The second loop of `flushDeferred`.
  unfoldable pub report_late : List Issue → State D → State D
  unfolding filled_late
  report_late [] s = s
  report_late (i ∷ is) s =
      let issue = filled_late i in
      report_late is
        (report_to w.rounds.watch issue.container.id issue.container.tty (issue ∷ []) s)

  unfoldable pub flush : ℕ → State D → State D
  unfolding report_late
  flush now s =
      let (out, e) = flush_deferred w.rounds.watch.path_match now s.engine in
      report_late out (record s { engine = e })

  -- The container that a probe is tied to: what is reported for it, and how its logs are fetched.
  unfoldable pub probed : Issue → Engine → Issue × String × Bool
  probed issue e =
      if is_empty issue.container.name || issue.resolved
      then (issue, "", false)
      else elim (lookup issue.container.name e.containers) [
        | none ↦ (issue, "", false)
        | some ref ↦ (
          elim (w.inspect_probed ref.id) [
            | none ↦ record issue { container = record issue.container { id = ref.id } }
            | some inspect ↦ record issue {
              container = to_snapshot w.rounds.watch.formats issue.container.name inspect;
            }
          ],
          ref.id,
          ref.tty,
        )
      ]

  unfoldable pub report_probed : List Issue → State D → State D
  unfolding probed
  report_probed [] s = s
  report_probed (i ∷ is) s =
      let (issue, id, tty) = probed i s.engine in
      report_probed is (report_to w.rounds.watch id tty (issue ∷ []) s)

  -- One round of `runProbes`.
  unfoldable pub run_probes : ℕ → List (HostDetector D) → State D → State D
  unfolding report_probed
  run_probes now [] s = s
  run_probes now (d ∷ ds) s =
      let (issues, detectors) = d.check s.detectors in
      let (out, e) =
        track_set w.rounds.watch.path_match now d.name issues (λ i. i.resource) s.engine in
      run_probes now ds (report_probed out (record { engine = e; detectors = detectors }))

  -- What follows a poll.
  unfoldable pub after_poll : ℕ → Bool → Polled D → PollLoop D → PollLoop D
  unfolding docker_down docker_up next_backoff
  after_poll now true p l = record {
    polled = record p { state = docker_up now p.state };
    backoff = w.min_backoff;
    down_since = none;
    healthy = true;
    wait = w.poll_interval;
  }
  after_poll now false p l =
      let since = down_from l.down_since now in
      record {
        polled = record p { state = docker_down now since p.state };
        backoff = next_backoff l.backoff;
        down_since = some since;
        healthy = false;
        wait = l.backoff;
      }

  -- One round of `runPoll`.
  unfoldable pub poll_round : ℕ → PollLoop D → PollLoop D
  unfolding check_host flush after_poll
  poll_round now l =
      let start = record l.polled { state = flush now (check_host now l.polled.state) } in
      let (ok, p) = poll_once w.rounds now start in after_poll now ok p l

-- What the loops do, in the order in which they come to it. Each step has its own answers of the daemon.
pub data Step (D : Type 0) : Type 0 where
  poll : Loops D → ℕ → Step D
  probe : Loops D → ℕ → Step D
  event : Loops D → ℕ → Event → ℕ → Step D

unfoldable pub step : {D : Type 0} → Step D → PollLoop D → PollLoop D
unfolding poll_round run_probes
step (poll w now) l = poll_round w now l
step (probe w now) l = record l {
  polled = record l.polled { state = run_probes w now w.probes l.polled.state };
}
step (event w now ev t) l = record l {
  polled = record l.polled { state = handle_event w.rounds.watch now ev t l.polled.state };
}

unfoldable pub run : {D : Type 0} → List (Step D) → PollLoop D → PollLoop D
unfolding step
run [] l = l
run (s ∷ ss) l = run ss (step s l)
