-- ===== src/Engine/Poll.antt =====
-- internal/engine/engine.go, pollOnce: a look at every container of the daemon. The poll is one step: an
-- event that comes while it runs is handled before it or after it, and it reads the clock once.
pub mod Gone
pub mod Queued
pub mod Held
use nodux.Base.{
  ℕ, ◌+◌, Bool, true, false, not, ◌&&◌, ◌||◌, String, List, [], ◌∷◌, ◌++◌, map, Option, none, some,
  string_eq, ◌==◌, if◌then◌else◌, leb, ltb, is_some, is_zero, or_else, any, positive,
}
use Prim.Native.String.{◌++◌ as str_append}
use nodux.Dict.{Dict, lookup, insert}
use nodux.Detector.Types.{ContainerSnapshot, Issue, Labels, label, label_compose_project}
use nodux.Detector.Labels.{enabled, relevant_labels, expected_by_label}
use nodux.Detector.Signal.{trim_prefix}
use nodux.Engine.{Engine, ContainerRef}
use nodux.Engine.Track.{emit, track_at, track_set, resolve_container}
use nodux.Engine.Upkeep.{ContainerSummary, note_image, prune_images, forget_container}
use nodux.Engine.Inspect.{ContainerInspect, Stats, to_snapshot, cpu_limit, memory_used}
use nodux.Engine.Handle.{report_to}
use nodux.Engine.Notice.{Watch, State, event_excluded}
use nodux.Engine.Look.{
  Detector, Listed, MemorySample, Rounds, Polled, Found, is_empty_list, keep_tty, set_engine,
  no_ref, container_name, collect_stats,
}

module _ {D : Type 0} (w : Rounds D) where
  -- The loop over the detectors, for one container.
  unfoldable pub check_one :
      ℕ → String → ContainerSnapshot → Detector D → State D → Option Issue × State D
  check_one now id snap d s =
      let checked : Option Issue × D =
        if enabled w.watch.parsers snap.labels d.name
        then d.check snap s.detectors
        else (none, s.detectors) in
      let key = str_append (str_append d.name "/") id in
      let (o, e) = track_at w.watch.path_match now key checked.0 (some snap) now s.engine in
      (o, record { engine = e; detectors = checked.1 })

  unfoldable pub check_all :
      ℕ → String → ContainerSnapshot → List (Detector D) → State D → List Issue × State D
  unfolding check_one
  check_all now id snap [] s = ([], s)
  check_all now id snap (d ∷ ds) s =
      let (o, s') = check_one now id snap d s in
      let (out, s'') = check_all now id snap ds s' in (emit o out, s'')

  -- A container that answered.
  unfoldable pub poll_inspected :
      ℕ → Bool → String → ContainerRef → ContainerInspect → Found × State D → Found × State D
  unfolding collect_stats check_all
  poll_inspected now sample name ref inspect (f, s) =
      let (snap, stats) =
        collect_stats w inspect (to_snapshot w.watch.formats name inspect) sample in
      let (out, s') = check_all now ref.id snap w.detectors s in
      (
        record f {
          refs = insert name (record ref { tty = inspect.tty }) f.refs;
          samples = elim stats [
            | none ↦ f.samples
            | some st ↦
                if sample
                then f.samples
                  ++ record {
                    time = now;
                    container = name;
                    used = memory_used st;
                    limit = snap.memory_max;
                  }
                    ∷ []
                else f.samples
          ];
        },
        report_to w.watch ref.id inspect.tty out s',
      )

  -- A container that is not excluded.
  unfoldable pub poll_watched :
      ℕ → Bool → String → ContainerRef → Listed → Found × State D → Found × State D
  unfolding poll_inspected
  poll_watched now sample name ref c (f, s) =
      let f' = record f {
        labeled_expected =
            if expected_by_label w.watch.parsers (relevant_labels c.labels)
            then f.labeled_expected ++ name ∷ []
            else f.labeled_expected;
      } in
      let s' = set_engine (note_image name c.summary now) s in
      if is_empty_list w.detectors && not sample then (f', s') else elim (w.inspect_polled c.id) [
        | none ↦ (f', s')
        | some inspect ↦ poll_inspected now sample name ref inspect (f', s')
      ]

  -- The body of the loop over the list.
  unfoldable pub poll_container : ℕ → Bool → Listed → Found × State D → Found × State D
  unfolding poll_watched container_name
  poll_container now sample c (f, s) =
      let name = container_name w c in
      let labels = relevant_labels c.labels in
      let ref : ContainerRef = record {
        id = c.id;
        project = label c.labels label_compose_project;
        tty = false;
      } in
      let f' = record f {
        statuses = insert name c.state f.statuses;
        refs = insert name ref f.refs;
      } in
      let s' = set_engine (λ e. record e { labels = insert c.id labels e.labels }) s in
      if event_excluded w.watch name labels
      then (f', s')
      else poll_watched now sample name ref c (f', s')

  unfoldable pub poll_containers : ℕ → Bool → List Listed → Found × State D → Found × State D
  unfolding poll_container
  poll_containers now sample [] r = r
  poll_containers now sample (c ∷ cs) r =
      poll_containers now sample cs (poll_container now sample c r)

  -- The loop over the expected containers with an alert or a resolution.
  unfoldable pub report_expected : Dict String ContainerRef → List Issue → State D → State D
  report_expected refs [] s = s
  report_expected refs (i ∷ is) s =
      let id = (or_else (lookup i.container.name refs) no_ref).id in
      let told =
        if i.resolved then i else record i { container = record i.container { id = id } } in
      report_expected refs is (report_to w.watch id false (told ∷ []) s)

  unfoldable pub poll_expected : ℕ → Found → Dict String ContainerRef → State D → State D
  unfolding report_expected
  poll_expected now f refs s = elim w.expected [
    | none ↦ s
    | some check ↦
        let (issues, d) = check f.statuses f.labeled_expected s.detectors in
        let (out, e) =
          track_set w.watch.path_match now "expected" issues (λ i. i.container.name) s.engine in
        report_expected refs out (record { engine = e; detectors = d })
  ]

  unfoldable pub forget_in : String → List (Detector D) → D → D
  forget_in id [] s = s
  forget_in id (d ∷ ds) s = forget_in id ds (elim d.forget [ none ↦ s | some f ↦ f id s ])

  -- What is done for a container that is gone.
  unfoldable pub forget_one : ℕ → String → State D → State D
  unfolding forget_in
  forget_one now id s =
      let (out, e) = resolve_container now id (forget_container id s.engine) in
      report_to w.watch "" false out
        (record { engine = e; detectors = forget_in id w.detectors s.detectors })

  -- The loop of `forgetGone` over the containers of the previous poll.
  unfoldable pub forget_gone : ℕ → List String → List String → State D → State D
  unfolding forget_one
  forget_gone now seen [] s = s
  forget_gone now seen (id ∷ ids) s =
      forget_gone now seen ids (if any (λ k. k == id) seen then s else forget_one now id s)

  -- After the daemon answered with a list.
  unfoldable pub poll_list : ℕ → List Listed → Polled D → Polled D
  unfolding poll_containers poll_expected forget_gone
  poll_list now cs p =
      let sample = not (is_zero w.sample_interval) && leb p.next_sample now in
      let seen = map (λ c. c.id) cs in
      let (f, s1) =
        poll_containers now sample cs
          (record { statuses = []; refs = []; labeled_expected = []; samples = [] }, p.state) in
      let refs = keep_tty s1.engine.containers f.refs in
      let s2 = set_engine (λ e. record e { containers = refs }) s1 in
      let s3 = forget_gone now seen p.last_seen (poll_expected now f refs s2) in
      record {
        state = set_engine (prune_images now) s3;
        last_seen = seen;
        next_sample = if sample then now + w.sample_interval else p.next_sample;
        recorded = if sample then p.recorded ++ f.samples else p.recorded;
      }

  -- Whether the daemon answered, and the state after it.
  unfoldable pub poll_once : ℕ → Polled D → Bool × Polled D
  unfolding poll_list
  poll_once now p =
      if w.ping
      then elim w.list_containers [ none ↦ (false, p) | some cs ↦ (true, poll_list now cs p) ]
      else (false, p)
