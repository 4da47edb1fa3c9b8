-- ===== src/Engine/Handle/Queued.antt =====
-- internal/engine/engine.go, handleEvent: what it queues was scrubbed.
use nodux.Base.{
  ℕ, refl, Bool, false, String, List, [], ◌∷◌, Option, none, some, if_rule, option_rule, or_else,
  string_eq,
}
use nodux.Detector.Labels.{enabled}
use nodux.Detector.Types.{ContainerEvent, ContainerSnapshot, Issue, label}
use Prim.Native.String.{◌++◌ as str_append}
use nodux.Detector.Signal.{trim_prefix}
use nodux.Dict.{lookup}
use nodux.Engine.{Engine}
use nodux.Engine.Track.{resolve_container}
use nodux.Engine.Upkeep.{forget_container, note_run}
use nodux.Engine.Inspect.{ContainerInspect, to_snapshot}
use nodux.Engine.Keeps.{
  Keeps, cooling_down-Keeps, note_run-Keeps, track-Keeps, is_silenced-Keeps,
  resolve_container-Keeps,
}
use nodux.Engine.Report.Scrubbed.{IsClean, same-IsClean, report-IsClean}
use nodux.Engine.Handle.{
  note_deploy, hit_case, hit_one, hits_of, missed_run, confirmed, track_hit, issues_of, report_to,
  handle_answer, handle_hits, handle_destroy, handle_container_event, count_oom, handle_event,
}
use nodux.Engine.Notice.{
  Event, EventDetector, Watch, State, Hit, is_destroy, level_events, container_event, event_labels,
  event_excluded,
}

module _ {D : Type 0} (w : Watch D) (host : String) where
  abbrev pub Clean : State D → Type 0
  Clean s = IsClean w.redactor host s.engine

  pub report_to-Clean :
      (id : String) (tty : Bool) (issues : List Issue) (s : State D)
      → Clean s
      → Clean (report_to w id tty issues s)
  unfolding report_to
  report_to-Clean id tty issues s =
      report-IsClean w.utf8 w.redactor w.container_logs host id tty issues s.engine

  hit_case-Clean :
      (now : ℕ) (d : EventDetector D) (found : Option Issue) (s : State D)
      → Clean s
      → Clean (hit_case w now d found s).1
  unfolding hit_case
  hit_case-Clean now d none s c = c
  hit_case-Clean now d (some i) s c =
      if_rule (λ (r : Option (Hit D) × State D). Clean r.1) _ (λ y. c)
        (λ n. same-IsClean _ (cooling_down-Keeps now i s.engine) c)

  hit_one-Clean :
      (now : ℕ) (cev : ContainerEvent) (d : EventDetector D) (s : State D)
      → Clean s
      → Clean (hit_one w now cev d s).1
  unfolding hit_one
  hit_one-Clean now cev d s c =
      let answer = d.handle_event cev s.detectors in
      let hit = hit_case-Clean now d answer.0 (record s { detectors = answer.1 }) c in
      if_rule (λ (r : Option (Hit D) × State D). Clean r.1) (enabled w.parsers cev.labels d.name)
        (λ y. hit) (λ n. c)

  hits_of-Clean :
      (now : ℕ) (cev : ContainerEvent) (ds : List (EventDetector D)) (s : State D)
      → Clean s
      → Clean (hits_of w now cev ds s).1
  unfolding hits_of
  hits_of-Clean now cev [] s c = c
  hits_of-Clean now cev (d ∷ ds) s c =
      hits_of-Clean now cev ds (hit_one w now cev d s).1 (hit_one-Clean now cev d s c)

  confirmed-Clean : (h : Hit D) (i : Issue) (s : State D) → Clean s → Clean (confirmed w h i s).1
  unfolding confirmed
  confirmed-Clean h i s c =
      option_rule (λ (r : Option Issue × State D). Clean r.1) h.found_by.confirm (λ n. c) (λ f p. c)

  track_hit-Clean :
      (now : ℕ) (id : String) (h : Hit D) (last_run : ℕ) (o : Option Issue) (s : State D)
      → Clean s
      → Clean (track_hit w now id h last_run o s).1
  unfolding track_hit
  track_hit-Clean now id h last_run none s c = c
  track_hit-Clean now id h last_run (some i) s c =
      let full = record i { container = record i.container { last_run = last_run } } in
      let key = str_append (str_append h.found_by.name "/") id in
      let told = same-IsClean _ (track-Keeps w.path_match now key (some full) none s.engine) c in
      let quiet = same-IsClean _ (is_silenced-Keeps w.path_match now full s.engine) c in
      if_rule (λ (r : Option Issue × State D). Clean r.1) (level_events w h.found_by.name)
        (λ y. told) (λ n. quiet)

  issues_of-Clean :
      (now : ℕ) (id : String) (snap : Option ContainerSnapshot) (last_run : ℕ) (hits : List (Hit D))
      (s : State D)
      → Clean s
      → Clean (issues_of w now id snap last_run hits s).1
  unfolding issues_of
  issues_of-Clean now id snap last_run [] s c = c
  issues_of-Clean now id snap last_run (h ∷ hits) s c =
      issues_of-Clean now id snap last_run hits _
        (track_hit-Clean now id h last_run _ _ (confirmed-Clean h _ s c))

  missed_run-Keeps :
      (cev : ContainerEvent) (snap : ContainerSnapshot) (e : Engine)
      → Keeps e (missed_run w cev snap e)
  unfolding missed_run
  missed_run-Keeps cev snap e =
      if_rule (Keeps e) _ (λ y. record { queue = refl; opts = refl })
        (λ n. record { queue = refl; opts = refl })

  note_deploy-Keeps : (cev : ContainerEvent) (e : Engine) → Keeps e (note_deploy w cev e)
  unfolding note_deploy
  note_deploy-Keeps cev e =
      option_rule (Keeps e) e.silences (λ n. record { queue = refl; opts = refl })
        λ st p.
          if_rule (Keeps e) _ (λ y. record { queue = refl; opts = refl })
            (λ n. record { queue = refl; opts = refl })

  handle_answer-Clean :
      (now : ℕ) (cev : ContainerEvent) (o : Option ContainerInspect) (hits : List (Hit D))
      (s : State D)
      → Clean s
      → Clean (handle_answer w now cev o hits s)
  unfolding handle_answer
  handle_answer-Clean now cev none hits s c =
      let last_run = or_else (lookup cev.id s.engine.last_runs) 0 in
      let told = issues_of w now cev.id none last_run hits s in
      report_to-Clean cev.id false told.0 told.1 (issues_of-Clean now cev.id none last_run hits s c)
  handle_answer-Clean now cev (some inspect) hits s c =
      let snap = to_snapshot w.formats cev.name inspect in
      let e = missed_run w cev snap s.engine in
      let last_run = or_else (lookup cev.id e.last_runs) 0 in
      let start = record s { engine = e } in
      let told = issues_of w now cev.id (some snap) last_run hits start in
      let noted = same-IsClean e (missed_run-Keeps cev snap s.engine) c in
      report_to-Clean cev.id inspect.tty told.0 told.1
        (issues_of-Clean now cev.id (some snap) last_run hits start noted)

  handle_hits-Clean :
      (now : ℕ) (cev : ContainerEvent) (hits : List (Hit D)) (s : State D)
      → Clean s
      → Clean (handle_hits w now cev hits s)
  unfolding handle_hits
  handle_hits-Clean now cev [] s c = c
  handle_hits-Clean now cev (h ∷ hits) s c =
      handle_answer-Clean now cev (w.inspect cev.id) (h ∷ hits) s c

  handle_destroy-Clean :
      (now : ℕ) (cev : ContainerEvent) (s : State D) → Clean s → Clean (handle_destroy w now cev s)
  unfolding handle_destroy forget_container
  handle_destroy-Clean now cev s c =
      let left = resolve_container now cev.id (forget_container cev.id s.engine) in
      let forgotten : IsClean w.redactor host (forget_container cev.id s.engine) = record {
        queued = c.queued;
        named = c.named;
      } in
      let ended : Clean (record s { engine = left.1 }) =
        same-IsClean left.1 (resolve_container-Keeps now cev.id (forget_container cev.id s.engine))
          forgotten in
      if_rule Clean (is_destroy cev.action)
        (λ y. report_to-Clean "" false left.0 (record s { engine = left.1 }) ended) (λ n. c)

  handle_container_event-Clean :
      (now : ℕ) (cev : ContainerEvent) (s : State D)
      → Clean s
      → Clean (handle_container_event w now cev s)
  unfolding handle_container_event
  handle_container_event-Clean now cev s c =
      let e = note_deploy w cev s.engine in
      let noted =
        same-IsClean (note_run cev e) (note_run-Keeps cev e)
          (same-IsClean e (note_deploy-Keeps cev s.engine) c) in
      handle_destroy-Clean now cev _ (
        handle_hits-Clean now cev _ _
          (hits_of-Clean now cev w.event_detectors (record s { engine = note_run cev e }) noted))

  count_oom-Clean : (ev : Event) (s : State D) → Clean s → Clean (count_oom w ev s)
  unfolding count_oom
  count_oom-Clean ev s c =
      option_rule Clean w.container_oom (λ n. c) (λ f p. if_rule Clean _ (λ y. c) (λ n. c))

  pub handle_event-Clean :
      (now : ℕ) (ev : Event) (t : ℕ) (s : State D) → Clean s → Clean (handle_event w now ev t s)
  unfolding handle_event
  handle_event-Clean now ev t s c =
      let labels = event_labels w ev s.engine in
      let counted = count_oom-Clean ev s c in
      let handled =
        handle_container_event-Clean now (container_event w ev t labels) (count_oom w ev s)
          counted in
      if_rule Clean
        (event_excluded w (trim_prefix w.affixes "/" (label ev.attributes "name")) labels)
        (λ y. counted) (λ n. handled)
