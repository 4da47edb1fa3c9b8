-- ===== src/Engine/Poll/Queued.antt =====
-- internal/engine/engine.go, pollOnce: what it queues was scrubbed.
use nodux.Base.{
  ℕ, Bool, false, not, ◌&&◌, String, List, [], ◌∷◌, ◌++◌, map, some, if_rule, option_rule, arith,
  or_else, string_eq, any, ◌==◌, if◌then◌else◌, is_zero, leb, nat_eq,
}
use Prim.Native.String.{◌++◌ as str_append}
use nodux.Dict.{Dict, lookup, insert}
use nodux.Detector.Types.{ContainerSnapshot, Issue, label, label_compose_project}
use nodux.Detector.Labels.{relevant_labels, expected_by_label}
use nodux.Engine.{Engine, ContainerRef}
use nodux.Engine.Track.{resolve_container, track_set}
use nodux.Engine.Upkeep.{ContainerSummary, forget_container, note_image}
use nodux.Engine.Inspect.{ContainerInspect, to_snapshot}
use nodux.Engine.Keeps.{
  Keeps, track_at-Keeps, track_set-Keeps, resolve_container-Keeps, prune_images-Keeps,
}
use nodux.Engine.Report.Scrubbed.{IsClean, same-IsClean}
use nodux.Engine.Handle.{report_to}
use nodux.Engine.Notice.{State, event_excluded}
use nodux.Engine.Handle.Queued.{Clean, report_to-Clean}
use nodux.Engine.Poll.{
  check_one, check_all, poll_inspected, poll_watched, poll_container, poll_containers,
  report_expected, poll_expected, forget_in, forget_one, forget_gone, poll_list, poll_once,
}
use nodux.Engine.Look.{
  Rounds, Polled, Listed, Detector, Found, is_empty_list, no_ref, set_engine, keep_tty,
  container_name, collect_stats,
}

note_image-Keeps :
    (name : String) (c : ContainerSummary) (now : ℕ) (e : Engine)
    → Keeps e (note_image name c now e)
unfolding note_image
note_image-Keeps name c now e = ground arith

module _ {D : Type 0} (w : Rounds D) (host : String) where
  abbrev pub CleanPoll : State D → Type 0
  CleanPoll = Clean w.watch host

  check_one-Clean :
      (now : ℕ) (id : String) (snap : ContainerSnapshot) (d : Detector D) (s : State D)
      → CleanPoll s
      → CleanPoll (check_one w now id snap d s).1
  unfolding check_one
  check_one-Clean now id snap d s c =
      same-IsClean _
        (track_at-Keeps w.watch.path_match now (str_append (str_append d.name "/") id) _ (some snap)
          now s.engine)
        c

  check_all-Clean :
      (now : ℕ) (id : String) (snap : ContainerSnapshot) (ds : List (Detector D)) (s : State D)
      → CleanPoll s
      → CleanPoll (check_all w now id snap ds s).1
  unfolding check_all
  check_all-Clean now id snap [] s c = c
  check_all-Clean now id snap (d ∷ ds) s c =
      check_all-Clean now id snap ds (check_one w now id snap d s).1
        (check_one-Clean now id snap d s c)

  poll_inspected-Clean :
      (now : ℕ) (sample : Bool) (name : String) (ref : ContainerRef) (inspect : ContainerInspect)
      (f : Found) (s : State D)
      → CleanPoll s
      → CleanPoll (poll_inspected w now sample name ref inspect (f, s)).1
  unfolding poll_inspected
  poll_inspected-Clean now sample name ref inspect f s c =
      let snap = (collect_stats w inspect (to_snapshot w.watch.formats name inspect) sample).0 in
      let told = check_all w now ref.id snap w.detectors s in
      report_to-Clean w.watch host ref.id inspect.tty told.0 told.1
        (check_all-Clean now ref.id snap w.detectors s c)

  poll_watched-Clean :
      (now : ℕ) (sample : Bool) (name : String) (ref : ContainerRef) (c : Listed) (f : Found)
      (s : State D)
      → CleanPoll s
      → CleanPoll (poll_watched w now sample name ref c (f, s)).1
  unfolding poll_watched
  poll_watched-Clean now sample name ref l f s c =
      let noted : CleanPoll (set_engine (note_image name l.summary now) s) =
        same-IsClean (note_image name l.summary now s.engine)
          (note_image-Keeps name l.summary now s.engine) c in
      let expected = record f {
        labeled_expected =
            if expected_by_label w.watch.parsers (relevant_labels l.labels)
            then f.labeled_expected ++ name ∷ []
            else f.labeled_expected;
      } in
      if_rule (λ (r : Found × State D). CleanPoll r.1) (is_empty_list w.detectors && not sample)
        (λ y. noted)
        (λ n.
          option_rule (λ (r : Found × State D). CleanPoll r.1) (w.inspect_polled l.id) (λ m. noted)
            (λ inspect h.
              poll_inspected-Clean now sample name ref inspect expected
                (set_engine (note_image name l.summary now) s) noted))

  poll_container-Clean :
      (now : ℕ) (sample : Bool) (l : Listed) (f : Found) (s : State D)
      → CleanPoll s
      → CleanPoll (poll_container w now sample l (f, s)).1
  unfolding poll_container
  poll_container-Clean now sample l f s c =
      let name = container_name w l in
      let labels = relevant_labels l.labels in
      let ref : ContainerRef = record {
        id = l.id;
        project = label l.labels label_compose_project;
        tty = false;
      } in
      let f' = record f {
        statuses = insert name l.state f.statuses;
        refs = insert name ref f.refs;
      } in
      let s' = set_engine (λ e. record e { labels = insert l.id labels e.labels }) s in
      let labelled : CleanPoll s' = record { queued = c.queued; named = c.named } in
      if_rule (λ (r : Found × State D). CleanPoll r.1) (event_excluded w.watch name labels)
        (λ y. labelled) (λ n. poll_watched-Clean now sample name ref l f' s' labelled)

  poll_containers-Clean :
      (now : ℕ) (sample : Bool) (ls : List Listed) (r : Found × State D)
      → CleanPoll r.1
      → CleanPoll (poll_containers w now sample ls r).1
  unfolding poll_containers
  poll_containers-Clean now sample [] r c = c
  poll_containers-Clean now sample (l ∷ ls) r c =
      poll_containers-Clean now sample ls (poll_container w now sample l r)
        (poll_container-Clean now sample l r.0 r.1 c)

  report_expected-Clean :
      (refs : Dict String ContainerRef) (is : List Issue) (s : State D)
      → CleanPoll s
      → CleanPoll (report_expected w refs is s)
  unfolding report_expected
  report_expected-Clean refs [] s c = c
  report_expected-Clean refs (i ∷ is) s c =
      let id = (or_else (lookup i.container.name refs) no_ref).id in
      let told =
        if i.resolved then i else record i { container = record i.container { id = id } } in
      report_expected-Clean refs is (report_to w.watch id false (told ∷ []) s)
        (report_to-Clean w.watch host id false (told ∷ []) s c)

  poll_expected-Clean :
      (now : ℕ) (f : Found) (refs : Dict String ContainerRef) (s : State D)
      → CleanPoll s
      → CleanPoll (poll_expected w now f refs s)
  unfolding poll_expected
  poll_expected-Clean now f refs s c =
      option_rule CleanPoll w.expected (λ n. c)
        λ check h.
          let answer = check f.statuses f.labeled_expected s.detectors in
          let told =
            track_set w.watch.path_match now "expected" answer.0 (λ i. i.container.name) s.engine in
          report_expected-Clean refs told.0 (record { engine = told.1; detectors = answer.1 })
            (same-IsClean told.1
              (track_set-Keeps w.watch.path_match now "expected" answer.0 (λ i. i.container.name)
                s.engine)
              c)

  forget_one-Clean :
      (now : ℕ) (id : String) (s : State D) → CleanPoll s → CleanPoll (forget_one w now id s)
  unfolding forget_one forget_container
  forget_one-Clean now id s c =
      let left = resolve_container now id (forget_container id s.engine) in
      let forgotten : IsClean w.watch.redactor host (forget_container id s.engine) = record {
        queued = c.queued;
        named = c.named;
      } in
      report_to-Clean w.watch host "" false left.0
        (record { engine = left.1; detectors = forget_in w id w.detectors s.detectors })
        (same-IsClean left.1 (resolve_container-Keeps now id (forget_container id s.engine))
          forgotten)

  forget_gone-Clean :
      (now : ℕ) (seen ids : List String) (s : State D)
      → CleanPoll s
      → CleanPoll (forget_gone w now seen ids s)
  unfolding forget_gone
  forget_gone-Clean now seen [] s c = c
  forget_gone-Clean now seen (id ∷ ids) s c =
      forget_gone-Clean now seen ids (if any (λ k. k == id) seen then s else forget_one w now id s)
        (if_rule CleanPoll (any (λ k. k == id) seen) (λ y. c) (λ n. forget_one-Clean now id s c))

  poll_list-Clean :
      (now : ℕ) (ls : List Listed) (p : Polled D)
      → CleanPoll p.state
      → CleanPoll (poll_list w now ls p).state
  unfolding poll_list
  poll_list-Clean now ls p c =
      let sample = not (is_zero w.sample_interval) && leb p.next_sample now in
      let seen = map (λ l. l.id) ls in
      let start : Found = record {
        statuses = [];
        refs = [];
        labeled_expected = [];
        samples = [];
      } in
      let polled = poll_containers w now sample ls (start, p.state) in
      let after = poll_containers-Clean now sample ls (start, p.state) c in
      let refs = keep_tty polled.1.engine.containers polled.0.refs in
      let s = set_engine (λ e. record e { containers = refs }) polled.1 in
      let known : CleanPoll s = record { queued = after.queued; named = after.named } in
      let expected = poll_expected w now polled.0 refs s in
      same-IsClean _ (prune_images-Keeps now (forget_gone w now seen p.last_seen expected).engine) (
        forget_gone-Clean now seen p.last_seen expected
          (poll_expected-Clean now polled.0 refs s known))

  pub poll_once-Clean :
      (now : ℕ) (p : Polled D) → CleanPoll p.state → CleanPoll (poll_once w now p).1.state
  unfolding poll_once
  poll_once-Clean now p c =
      if_rule (λ (r : Bool × Polled D). CleanPoll r.1.state) w.ping
        (λ y.
          option_rule (λ (r : Bool × Polled D). CleanPoll r.1.state) w.list_containers (λ n. c)
            (λ ls h. poll_list-Clean now ls p c))
        (λ n. c)
