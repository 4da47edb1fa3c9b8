-- ===== src/Engine/Loops/Scrubbed.antt =====
-- internal/engine/engine.go: whatever the loops do, what they queue was scrubbed.
use nodux.Base.{
  ℕ, ◌≡◌, sym, subst, Bool, true, false, ◌||◌, String, List, [], ◌∷◌, Option, none, some, if_rule,
  option_rule, All, string_eq, is_zero, nat_eq, ltb, ◌+◌,
}
use nodux.Detector.Types.{Issue}
use nodux.Engine.Track.{track, track_set, is_silenced, flush_deferred}
use nodux.Engine.Keeps.{track-Keeps, track_set-Keeps, is_silenced-Keeps, flush_deferred-Keeps}
use nodux.Engine.Report.{Redactor}
use nodux.Engine.Report.Scrubbed.{IsClean, same-IsClean}
use nodux.Engine.Handle.{report_to, handle_event}
use nodux.Engine.Notice.{State}
use nodux.Engine.Handle.Queued.{report_to-Clean, handle_event-Clean}
use nodux.Engine.Poll.{poll_once}
use nodux.Engine.Look.{Polled}
use nodux.Engine.Poll.Queued.{CleanPoll, poll_once-Clean}
use nodux.Engine.Loops.{
  Loops, HostDetector, PollLoop, Step, poll, probe, event, daemon_key, daemon_issue, report_host,
  docker_down, docker_up, check_host_detectors, report_oom, check_host_oom, check_host, filled_late,
  report_late, flush, probed, report_probed, run_probes, after_poll, poll_round, step, run,
}

module _ {D : Type 0} (w : Loops D) (host : String) where
  abbrev CleanLoop : State D → Type 0
  CleanLoop = CleanPoll w.rounds host

  report_host-Clean : (o : Option Issue) (s : State D) → CleanLoop s → CleanLoop (report_host w o s)
  unfolding report_host
  report_host-Clean none s c = c
  report_host-Clean (some i) s c = report_to-Clean w.rounds.watch host "" false (i ∷ []) s c

  docker_down-Clean :
      (now since : ℕ) (s : State D) → CleanLoop s → CleanLoop (docker_down w now since s)
  unfolding docker_down
  docker_down-Clean now since s c =
      let issue = daemon_issue now since w.error in
      let out = track w.rounds.watch.path_match now daemon_key (some issue) none s.engine in
      let told =
        report_host-Clean out.0 (record s { engine = out.1 })
          (same-IsClean out.1
            (track-Keeps w.rounds.watch.path_match now daemon_key (some issue) none s.engine) c) in
      if_rule CleanLoop
        (is_zero s.engine.opts.docker_down_after
          || ltb now (since + s.engine.opts.docker_down_after))
        (λ y. c) (λ n. told)

  docker_up-Clean : (now : ℕ) (s : State D) → CleanLoop s → CleanLoop (docker_up w now s)
  unfolding docker_up
  docker_up-Clean now s c =
      let out = track w.rounds.watch.path_match now daemon_key none none s.engine in
      report_host-Clean out.0 (record s { engine = out.1 })
        (same-IsClean out.1
          (track-Keeps w.rounds.watch.path_match now daemon_key none none s.engine) c)

  check_host_detectors-Clean :
      (now : ℕ) (ds : List (HostDetector D)) (s : State D)
      → CleanLoop s
      → CleanLoop (check_host_detectors w now ds s)
  unfolding check_host_detectors
  check_host_detectors-Clean now [] s c = c
  check_host_detectors-Clean now (d ∷ ds) s c =
      let answer = d.check s.detectors in
      let out =
        track_set w.rounds.watch.path_match now d.name answer.0 (λ i. i.resource) s.engine in
      let s' : State D = record { engine = out.1; detectors = answer.1 } in
      check_host_detectors-Clean now ds (report_to w.rounds.watch "" false out.0 s') (
        report_to-Clean w.rounds.watch host "" false out.0 s' (
          same-IsClean out.1
            (track_set-Keeps w.rounds.watch.path_match now d.name answer.0 (λ i. i.resource)
              s.engine)
            c))

  report_oom-Clean :
      (now : ℕ) (o : Option Issue) (s : State D) → CleanLoop s → CleanLoop (report_oom w now o s)
  unfolding report_oom
  report_oom-Clean now none s c = c
  report_oom-Clean now (some i) s c =
      let quiet = is_silenced w.rounds.watch.path_match now i s.engine in
      report_host-Clean (some (record i { silenced = quiet.0 })) (record s { engine = quiet.1 })
        (same-IsClean quiet.1 (is_silenced-Keeps w.rounds.watch.path_match now i s.engine) c)

  check_host-Clean : (now : ℕ) (s : State D) → CleanLoop s → CleanLoop (check_host w now s)
  unfolding check_host check_host_oom
  check_host-Clean now s c =
      let s' = check_host_detectors w now w.host_detectors s in
      let c' = check_host_detectors-Clean now w.host_detectors s c in
      option_rule CleanLoop w.host_oom (λ n. c')
        (λ check h.
          report_oom-Clean now (check s'.detectors).0
            (record s' { detectors = (check s'.detectors).1 }) c')

  report_late-Clean : (is : List Issue) (s : State D) → CleanLoop s → CleanLoop (report_late w is s)
  unfolding report_late
  report_late-Clean [] s c = c
  report_late-Clean (i ∷ is) s c =
      let issue = filled_late w i in
      report_late-Clean is
        (report_to w.rounds.watch issue.container.id issue.container.tty (issue ∷ []) s)
        (report_to-Clean w.rounds.watch host issue.container.id issue.container.tty (issue ∷ []) s
          c)

  flush-Clean : (now : ℕ) (s : State D) → CleanLoop s → CleanLoop (flush w now s)
  unfolding flush
  flush-Clean now s c =
      let out = flush_deferred w.rounds.watch.path_match now s.engine in
      report_late-Clean out.0 (record s { engine = out.1 })
        (same-IsClean out.1 (flush_deferred-Keeps w.rounds.watch.path_match now s.engine) c)

  report_probed-Clean :
      (is : List Issue) (s : State D) → CleanLoop s → CleanLoop (report_probed w is s)
  unfolding report_probed
  report_probed-Clean [] s c = c
  report_probed-Clean (i ∷ is) s c =
      let p = probed w i s.engine in
      report_probed-Clean is (report_to w.rounds.watch p.1 p.2 (p.0 ∷ []) s)
        (report_to-Clean w.rounds.watch host p.1 p.2 (p.0 ∷ []) s c)

  run_probes-Clean :
      (now : ℕ) (ds : List (HostDetector D)) (s : State D)
      → CleanLoop s
      → CleanLoop (run_probes w now ds s)
  unfolding run_probes
  run_probes-Clean now [] s c = c
  run_probes-Clean now (d ∷ ds) s c =
      let answer = d.check s.detectors in
      let out =
        track_set w.rounds.watch.path_match now d.name answer.0 (λ i. i.resource) s.engine in
      let s' : State D = record { engine = out.1; detectors = answer.1 } in
      run_probes-Clean now ds (report_probed w out.0 s') (
        report_probed-Clean out.0 s' (
          same-IsClean out.1
            (track_set-Keeps w.rounds.watch.path_match now d.name answer.0 (λ i. i.resource)
              s.engine)
            c))

  after_poll-Clean :
      (now : ℕ) (ok : Bool) (p : Polled D) (l : PollLoop D)
      → CleanLoop p.state
      → CleanLoop (after_poll w now ok p l).polled.state
  unfolding after_poll
  after_poll-Clean now true p l c = docker_up-Clean now p.state c
  after_poll-Clean now false p l c = docker_down-Clean now _ p.state c

  poll_round-Clean :
      (now : ℕ) (l : PollLoop D)
      → CleanLoop l.polled.state
      → CleanLoop (poll_round w now l).polled.state
  unfolding poll_round
  poll_round-Clean now l c =
      let start = record l.polled { state = flush w now (check_host w now l.polled.state) } in
      let flushed =
        flush-Clean now (check_host w now l.polled.state) (check_host-Clean now l.polled.state c) in
      after_poll-Clean now (poll_once w.rounds now start).0 (poll_once w.rounds now start).1 l
        (poll_once-Clean w.rounds host now start flushed)

-- The redactor is fixed when nodux starts.
abbrev pub Uses : {D : Type 0} → Redactor → Step D → Type 0
Uses red (poll w now) = w.rounds.watch.redactor ≡ red
Uses red (probe w now) = w.rounds.watch.redactor ≡ red
Uses red (event w now ev t) = w.rounds.watch.redactor ≡ red

module _ {D : Type 0} (red : Redactor) (host : String) where
  step-IsClean :
      (s : Step D) (l : PollLoop D)
      → Uses red s
      → IsClean red host l.polled.state.engine
      → IsClean red host (step s l).polled.state.engine
  unfolding step
  step-IsClean (poll w now) l u c =
      subst (λ r. IsClean r host (poll_round w now l).polled.state.engine) u
        (poll_round-Clean w host now l
          (subst (λ r. IsClean r host l.polled.state.engine) (sym u) c))
  step-IsClean (probe w now) l u c =
      subst (λ r. IsClean r host (run_probes w now w.probes l.polled.state).engine) u
        (run_probes-Clean w host now w.probes l.polled.state
          (subst (λ r. IsClean r host l.polled.state.engine) (sym u) c))
  step-IsClean (event w now ev t) l u c =
      subst (λ r. IsClean r host (handle_event w.rounds.watch now ev t l.polled.state).engine) u
        (handle_event-Clean w.rounds.watch host now ev t l.polled.state
          (subst (λ r. IsClean r host l.polled.state.engine) (sym u) c))

  -- Over any polls, probes and events, in any order and with any answers of the daemon and of the detectors:
  -- every issue in the queue has a message that went through the redactor and the name of the host, and,
  -- if it is an alert that will be sent, logs of which every line went through the redactor.
  pub run-IsClean :
      (ss : List (Step D)) (l : PollLoop D)
      → All (Uses red) ss
      → IsClean red host l.polled.state.engine
      → IsClean red host (run ss l).polled.state.engine
  unfolding run
  run-IsClean [] l u c = c
  run-IsClean (s ∷ ss) l u c = run-IsClean ss (step s l) u.1 (step-IsClean s l u.0 c)
