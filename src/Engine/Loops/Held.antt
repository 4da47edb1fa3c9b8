-- ===== src/Engine/Loops/Held.antt =====
-- internal/engine/engine.go, runPoll: what a round does beside the poll leaves an episode that no detector uses.
use nodux.Base.{ℕ, Bool, false, String, List, [], ◌∷◌, Option, none, some, option_rule, All}
use nodux.Detector.Types.{Issue}
use nodux.Engine.{Options}
use nodux.Engine.Track.{track_set, is_silenced, flush_deferred}
use nodux.Engine.Held.{
  Foreign, Unmoved, track_set-Unmoved, is_silenced-Unmoved, flush_deferred-Unmoved,
}
use nodux.Engine.Report.{report}
use nodux.Engine.Handle.{report_to}
use nodux.Engine.Notice.{State}
use nodux.Engine.Loops.{
  Loops, HostDetector, report_host, check_host_detectors, report_oom, check_host_oom, check_host,
  filled_late, report_late, flush,
}

module _ {D : Type 0} (w : Loops D) (key : String) (own : Option String) (opts : Options) where
  abbrev HeldLoop : State D → Type 0
  HeldLoop s = Unmoved key own opts s.engine

  report_to-Held :
      (id : String) (tty : Bool) (is : List Issue) (s : State D)
      → HeldLoop s
      → HeldLoop (report_to w.rounds.watch id tty is s)
  unfolding report_to report
  report_to-Held id tty is s c = record { owned = c.owned; options = c.options }

  report_host-Held : (o : Option Issue) (s : State D) → HeldLoop s → HeldLoop (report_host w o s)
  unfolding report_host
  report_host-Held none s c = c
  report_host-Held (some i) s c = report_to-Held "" false (i ∷ []) s c

  check_host_detectors-Held :
      (now : ℕ) (ds : List (HostDetector D)) (s : State D)
      → All (λ d. Foreign key d.name) ds
      → HeldLoop s
      → HeldLoop (check_host_detectors w now ds s)
  unfolding check_host_detectors
  check_host_detectors-Held now [] s foreign c = c
  check_host_detectors-Held now (d ∷ ds) s foreign c =
      let answer = d.check s.detectors in
      let out =
        track_set w.rounds.watch.path_match now d.name answer.0 (λ i. i.resource) s.engine in
      let s' : State D = record { engine = out.1; detectors = answer.1 } in
      check_host_detectors-Held now ds (report_to w.rounds.watch "" false out.0 s') foreign.1 (
        report_to-Held "" false out.0 s' (
          track_set-Unmoved key own opts w.rounds.watch.path_match now d.name answer.0
            (λ i. i.resource) s.engine foreign.0 c))

  report_oom-Held :
      (now : ℕ) (o : Option Issue) (s : State D) → HeldLoop s → HeldLoop (report_oom w now o s)
  unfolding report_oom
  report_oom-Held now none s c = c
  report_oom-Held now (some i) s c =
      let quiet = is_silenced w.rounds.watch.path_match now i s.engine in
      report_host-Held (some (record i { silenced = quiet.0 })) (record s { engine = quiet.1 })
        (is_silenced-Unmoved key own opts w.rounds.watch.path_match now i s.engine c)

  pub check_host-Held :
      (now : ℕ) (s : State D)
      → All (λ d. Foreign key d.name) w.host_detectors
      → HeldLoop s
      → HeldLoop (check_host w now s)
  unfolding check_host check_host_oom
  check_host-Held now s foreign c =
      let s' = check_host_detectors w now w.host_detectors s in
      let c' = check_host_detectors-Held now w.host_detectors s foreign c in
      option_rule HeldLoop w.host_oom (λ n. c')
        (λ check h.
          report_oom-Held now (check s'.detectors).0
            (record s' { detectors = (check s'.detectors).1 }) c')

  report_late-Held : (is : List Issue) (s : State D) → HeldLoop s → HeldLoop (report_late w is s)
  unfolding report_late
  report_late-Held [] s c = c
  report_late-Held (i ∷ is) s c =
      let issue = filled_late w i in
      report_late-Held is
        (report_to w.rounds.watch issue.container.id issue.container.tty (issue ∷ []) s)
        (report_to-Held issue.container.id issue.container.tty (issue ∷ []) s c)

  pub flush-Held : (now : ℕ) (s : State D) → HeldLoop s → HeldLoop (flush w now s)
  unfolding flush
  flush-Held now s c =
      let out = flush_deferred w.rounds.watch.path_match now s.engine in
      report_late-Held out.0 (record s { engine = out.1 })
        (flush_deferred-Unmoved key own opts w.rounds.watch.path_match now s.engine c)
