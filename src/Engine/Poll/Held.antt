-- ===== src/Engine/Poll/Held.antt =====
-- internal/engine/engine.go, pollOnce: an episode that belongs to no container, and that no detector uses.
use nodux.Base.{
  ℕ, ◌≡◌, ◌≢◌, subst, All, Option, none, Bool, false, not, ◌&&◌, String, List, [], ◌∷◌, ◌++◌, map,
  some, if_rule, option_rule, arith, or_else, string_eq, any, ◌==◌, if◌then◌else◌, is_zero, leb,
  nat_eq,
}
use Prim.Native.String.{◌++◌ as str_append}
use nodux.Dict.{Dict, lookup, insert}
use nodux.Detector.Types.{ContainerSnapshot, Issue, label, label_compose_project}
use nodux.Detector.Labels.{relevant_labels, expected_by_label}
use nodux.Engine.{Engine, ContainerRef, Options}
use nodux.Engine.Track.{resolve_container, track_set}
use nodux.Engine.Upkeep.{prune_images, ContainerSummary, forget_container, note_image}
use nodux.Engine.Inspect.{ContainerInspect, to_snapshot}
use nodux.Engine.Held.{
  Foreign, Foreign-key, Unmoved, same-Unmoved, track_at-Unmoved, track_set-Unmoved,
  resolve_container-Unmoved,
}
use nodux.Engine.Report.{report}
use nodux.Engine.Handle.{report_to}
use nodux.Engine.Notice.{State, event_excluded}
use nodux.Engine.Poll.{
  check_one, check_all, poll_inspected, poll_watched, poll_container, poll_containers,
  report_expected, poll_expected, forget_in, forget_one, forget_gone, poll_list, poll_once,
}
use nodux.Engine.Look.{
  Rounds, Polled, Listed, Detector, Found, is_empty_list, no_ref, set_engine, keep_tty,
  container_name, collect_stats,
}

note_image-active :
    (name : String) (c : ContainerSummary) (now : ℕ) (e : Engine)
    → ((note_image name c now e).active ≡ e.active) × ((note_image name c now e).opts ≡ e.opts)
unfolding note_image
note_image-active name c now e = ground arith

prune_images-active :
    (now : ℕ) (e : Engine)
    → ((prune_images now e).active ≡ e.active) × ((prune_images now e).opts ≡ e.opts)
unfolding prune_images
prune_images-active now e = ground arith

-- The containers that the daemon lists have identifiers.
abbrev pub AllNamed : List String → Type 0
AllNamed ids = All (λ id. id ≢ "") ids

abbrev pub Lists : Option (List Listed) → Type 0
Lists none = Unit
Lists (some ls) = AllNamed (map (λ l. l.id) ls)

module _ {D : Type 0} (w : Rounds D) (key : String) (own : Option String) (opts : Options) where
  abbrev HeldPoll : State D → Type 0
  HeldPoll s = Unmoved key own opts s.engine

  report_to-Held :
      (id : String) (tty : Bool) (is : List Issue) (s : State D)
      → HeldPoll s
      → HeldPoll (report_to w.watch id tty is s)
  unfolding report_to report
  report_to-Held id tty is s c = record { owned = c.owned; options = c.options }

  check_one-Held :
      (now : ℕ) (id : String) (snap : ContainerSnapshot) (d : Detector D) (s : State D)
      → Foreign key d.name
      → HeldPoll s
      → HeldPoll (check_one w now id snap d s).1
  unfolding check_one
  check_one-Held now id snap d s f c =
      track_at-Unmoved key own opts w.watch.path_match now (str_append (str_append d.name "/") id) _
        (some snap) now s.engine (Foreign-key key d.name id f) c

  check_all-Held :
      (now : ℕ) (id : String) (snap : ContainerSnapshot) (ds : List (Detector D)) (s : State D)
      → All (λ d. Foreign key d.name) ds
      → HeldPoll s
      → HeldPoll (check_all w now id snap ds s).1
  unfolding check_all
  check_all-Held now id snap [] s f c = c
  check_all-Held now id snap (d ∷ ds) s f c =
      check_all-Held now id snap ds (check_one w now id snap d s).1 f.1
        (check_one-Held now id snap d s f.0 c)

  poll_inspected-Held :
      (now : ℕ) (sample : Bool) (name : String) (ref : ContainerRef) (inspect : ContainerInspect)
      (f : Found) (s : State D)
      → All (λ d. Foreign key d.name) w.detectors
      → HeldPoll s
      → HeldPoll (poll_inspected w now sample name ref inspect (f, s)).1
  unfolding poll_inspected
  poll_inspected-Held now sample name ref inspect f s foreign c =
      let snap = (collect_stats w inspect (to_snapshot w.watch.formats name inspect) sample).0 in
      let told = check_all w now ref.id snap w.detectors s in
      report_to-Held ref.id inspect.tty told.0 told.1
        (check_all-Held now ref.id snap w.detectors s foreign c)

  poll_watched-Held :
      (now : ℕ) (sample : Bool) (name : String) (ref : ContainerRef) (c : Listed) (f : Found)
      (s : State D)
      → All (λ d. Foreign key d.name) w.detectors
      → HeldPoll s
      → HeldPoll (poll_watched w now sample name ref c (f, s)).1
  unfolding poll_watched
  poll_watched-Held now sample name ref l f s foreign c =
      let noted : HeldPoll (set_engine (note_image name l.summary now) s) =
        same-Unmoved key own opts s.engine (note_image name l.summary now s.engine)
          (note_image-active name l.summary now s.engine).0
          (note_image-active name l.summary now s.engine).1 c in
      let expected = record f {
        labeled_expected =
            if expected_by_label w.watch.parsers (relevant_labels l.labels)
            then f.labeled_expected ++ name ∷ []
            else f.labeled_expected;
      } in
      if_rule (λ (r : Found × State D). HeldPoll r.1) (is_empty_list w.detectors && not sample)
        (λ y. noted)
        (λ n.
          option_rule (λ (r : Found × State D). HeldPoll r.1) (w.inspect_polled l.id) (λ m. noted)
            (λ inspect h.
              poll_inspected-Held now sample name ref inspect expected
                (set_engine (note_image name l.summary now) s) foreign noted))

  poll_container-Held :
      (now : ℕ) (sample : Bool) (l : Listed) (f : Found) (s : State D)
      → All (λ d. Foreign key d.name) w.detectors
      → HeldPoll s
      → HeldPoll (poll_container w now sample l (f, s)).1
  unfolding poll_container
  poll_container-Held now sample l f s foreign c =
      let name = container_name w l in
      let labels = relevant_labels l.labels in
      let ref : ContainerRef = record {
        id = l.id;
        project = label l.labels label_compose_project;
        tty = false;
      } in
      let f' = record f {
        statuses = insert name l.state f.statuses;
        refs = insert name ref f.refs;
      } in
      let s' = set_engine (λ e. record e { labels = insert l.id labels e.labels }) s in
      let labelled : HeldPoll s' = record { owned = c.owned; options = c.options } in
      if_rule (λ (r : Found × State D). HeldPoll r.1) (event_excluded w.watch name labels)
        (λ y. labelled) (λ n. poll_watched-Held now sample name ref l f' s' foreign labelled)

  poll_containers-Held :
      (now : ℕ) (sample : Bool) (ls : List Listed) (r : Found × State D)
      → All (λ d. Foreign key d.name) w.detectors
      → HeldPoll r.1
      → HeldPoll (poll_containers w now sample ls r).1
  unfolding poll_containers
  poll_containers-Held now sample [] r foreign c = c
  poll_containers-Held now sample (l ∷ ls) r foreign c =
      poll_containers-Held now sample ls (poll_container w now sample l r) foreign
        (poll_container-Held now sample l r.0 r.1 foreign c)

  report_expected-Held :
      (refs : Dict String ContainerRef) (is : List Issue) (s : State D)
      → HeldPoll s
      → HeldPoll (report_expected w refs is s)
  unfolding report_expected
  report_expected-Held refs [] s c = c
  report_expected-Held refs (i ∷ is) s c =
      let id = (or_else (lookup i.container.name refs) no_ref).id in
      let told =
        if i.resolved then i else record i { container = record i.container { id = id } } in
      report_expected-Held refs is (report_to w.watch id false (told ∷ []) s)
        (report_to-Held id false (told ∷ []) s c)

  poll_expected-Held :
      (now : ℕ) (f : Found) (refs : Dict String ContainerRef) (s : State D)
      → Foreign key "expected"
      → HeldPoll s
      → HeldPoll (poll_expected w now f refs s)
  unfolding poll_expected
  poll_expected-Held now f refs s foreign c =
      option_rule HeldPoll w.expected (λ n. c)
        λ check h.
          let answer = check f.statuses f.labeled_expected s.detectors in
          let told =
            track_set w.watch.path_match now "expected" answer.0 (λ i. i.container.name) s.engine in
          report_expected-Held refs told.0 (record { engine = told.1; detectors = answer.1 })
            (track_set-Unmoved key own opts w.watch.path_match now "expected" answer.0
              (λ i. i.container.name) s.engine foreign c)

  forget_one-Held :
      (now : ℕ) (id : String) (s : State D)
      → own ≢ some id
      → HeldPoll s
      → HeldPoll (forget_one w now id s)
  unfolding forget_one forget_container
  forget_one-Held now id s ne c =
      let left = resolve_container now id (forget_container id s.engine) in
      report_to-Held "" false left.0
        (record { engine = left.1; detectors = forget_in w id w.detectors s.detectors })
        (resolve_container-Unmoved key own opts now id (forget_container id s.engine) ne
          (record { owned = c.owned; options = c.options }))

  forget_gone-Held :
      (now : ℕ) (seen ids : List String) (s : State D)
      → All (λ id. own ≢ some id) ids
      → HeldPoll s
      → HeldPoll (forget_gone w now seen ids s)
  unfolding forget_gone
  forget_gone-Held now seen [] s ne c = c
  forget_gone-Held now seen (id ∷ ids) s ne c =
      forget_gone-Held now seen ids (if any (λ k. k == id) seen then s else forget_one w now id s)
        ne.1
        (if_rule HeldPoll (any (λ k. k == id) seen) (λ y. c) (λ n. forget_one-Held now id s ne.0 c))

  poll_list-Held :
      (now : ℕ) (ls : List Listed) (p : Polled D)
      → All (λ d. Foreign key d.name) w.detectors
      → Foreign key "expected"
      → All (λ id. own ≢ some id) p.last_seen
      → HeldPoll p.state
      → HeldPoll (poll_list w now ls p).state
  unfolding poll_list
  poll_list-Held now ls p foreign expects ne c =
      let sample = not (is_zero w.sample_interval) && leb p.next_sample now in
      let seen = map (λ l. l.id) ls in
      let start : Found = record {
        statuses = [];
        refs = [];
        labeled_expected = [];
        samples = [];
      } in
      let polled = poll_containers w now sample ls (start, p.state) in
      let after = poll_containers-Held now sample ls (start, p.state) foreign c in
      let refs = keep_tty polled.1.engine.containers polled.0.refs in
      let s = set_engine (λ e. record e { containers = refs }) polled.1 in
      let known : HeldPoll s = record { owned = after.owned; options = after.options } in
      let expected = poll_expected w now polled.0 refs s in
      let gone = forget_gone w now seen p.last_seen expected in
      same-Unmoved key own opts gone.engine (prune_images now gone.engine)
        (prune_images-active now gone.engine).0 (prune_images-active now gone.engine).1
        (forget_gone-Held now seen p.last_seen expected ne
          (poll_expected-Held now polled.0 refs s expects known))

  -- A poll of detectors with other keys, where no container that was seen before owns the episode.
  pub poll_once-Held :
      (now : ℕ) (p : Polled D)
      → All (λ d. Foreign key d.name) w.detectors
      → Foreign key "expected"
      → All (λ id. own ≢ some id) p.last_seen
      → HeldPoll p.state
      → HeldPoll (poll_once w now p).1.state
  unfolding poll_once
  poll_once-Held now p foreign expects ne c =
      if_rule (λ (r : Bool × Polled D). HeldPoll r.1.state) w.ping
        (λ y.
          option_rule (λ (r : Bool × Polled D). HeldPoll r.1.state) w.list_containers (λ n. c)
            (λ ls h. poll_list-Held now ls p foreign expects ne c))
        (λ n. c)

-- What a poll remembers has identifiers too.
pub poll_once-last_seen :
    {D : Type 0} (w : Rounds D) (now : ℕ) (p : Polled D)
    → Lists w.list_containers
    → AllNamed p.last_seen
    → AllNamed (poll_once w now p).1.last_seen
unfolding poll_once
poll_once-last_seen {D} w now p h seen =
    if_rule (λ (r : Bool × Polled D). AllNamed r.1.last_seen) w.ping
      (λ y.
        option_rule (λ (r : Bool × Polled D). AllNamed r.1.last_seen) w.list_containers (λ n. seen)
          (λ ls e. unfold poll_list in subst Lists e h))
      (λ n. seen)
