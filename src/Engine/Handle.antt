-- ===== src/Engine/Handle.antt =====
-- internal/engine/engine.go, handleEvent: one event of the daemon goes to all event detectors, and what they
-- find is tracked and reported. The state is the engine's and that of all detectors.
pub mod Queued
pub mod Destroyed
use nodux.Base.{
  ℕ, ◌+◌, ◌-◌, Bool, true, false, not, ◌&&◌, ◌||◌, String, List, [], ◌∷◌, ◌++◌, Option, none, some,
  string_eq, nat_eq, ◌==◌, if◌then◌else◌, ltb, is_empty, is_some, is_zero, or_else, any,
}
use Prim.Native.String.{◌++◌ as str_append}
use nodux.Dict.{Dict, lookup, insert}
use nodux.Detector.Types.{
  ContainerEvent, ContainerSnapshot, Issue, Action, create, start, kill, oom, die, destroy,
  health_status, other, Labels, label, label_compose_project,
}
use nodux.Detector.Labels.{Parsers, excluded, enabled, relevant_labels}
use nodux.Detector.Signal.{Affixes, trim_prefix, parse_signal}
use nodux.Detector.Truncate.{Utf8}
use nodux.Silence.{Store, deploy}
use nodux.Engine.{Engine}
use nodux.Engine.Track.{emit, track, is_silenced, resolve_container}
use nodux.Engine.Upkeep.{cooling_down, is_deploy_event, note_run, forget_container, merge_snapshot}
use nodux.Engine.Report.{Redactor, Logs, report}
use nodux.Engine.Inspect.{ContainerInspect, Formats, to_snapshot}
use nodux.Engine.Notice.{
  Event, EventDetector, Watch, State, Hit, action_of, is_kill, ends_run, is_destroy, level_events,
  event_excluded, event_exit_code, event_labels, raw_event, with_health_status, with_stop_signal,
  container_event,
}

module _ {D : Type 0} (w : Watch D) where
  unfoldable pub note_deploy : ContainerEvent → Engine → Engine
  note_deploy cev e = elim e.silences [
    | none ↦ e
    | some st ↦
        if not (is_zero w.deploy_grace) && is_deploy_event cev
        then record e {
          silences = some (
              deploy cev.name (label cev.labels label_compose_project) (cev.time + w.deploy_grace)
                st);
        }
        else e
  ]

  unfoldable pub hit_case : ℕ → EventDetector D → Option Issue → State D → Option (Hit D) × State D
  unfolding level_events
  hit_case now d none s = (none, s)
  hit_case now d (some issue) s =
      if level_events w d.name
      then (some (record { found_by = d; issue = issue }), s)
      else let (cold, e) = cooling_down now issue s.engine in
        (
          (if cold then none else some (record { found_by = d; issue = issue })),
          record s { engine = e },
        )

  -- The body of the first loop over the event detectors.
  unfoldable pub hit_one : ℕ → ContainerEvent → EventDetector D → State D → Option (Hit D) × State D
  unfolding hit_case
  hit_one now cev d s =
      if enabled w.parsers cev.labels d.name
      then (let (found, after) = d.handle_event cev s.detectors in
          hit_case now d found (record s { detectors = after }))
      else (none, s)

  unfoldable pub hits_of :
      ℕ → ContainerEvent → List (EventDetector D) → State D → List (Hit D) × State D
  unfolding hit_one
  hits_of now cev [] s = ([], s)
  hits_of now cev (d ∷ ds) s =
      let (hit, s') = hit_one now cev d s in
      let (hits, s'') = hits_of now cev ds s' in (elim hit [ none ↦ hits | some h ↦ h ∷ hits ], s'')

  -- The run that just ended, if its start was missed.
  unfoldable pub missed_run : ContainerEvent → ContainerSnapshot → Engine → Engine
  missed_run cev snap e =
      if ends_run cev.action
        && not (is_zero snap.started_at)
        && ltb snap.started_at cev.time
        && not (is_some (lookup cev.id e.last_runs))
      then record e { last_runs = insert cev.id (cev.time - snap.started_at) e.last_runs }
      else e

  abbrev merged : Option ContainerSnapshot → Issue → Issue
  merged none issue = issue
  merged (some snap) issue = record issue { container = merge_snapshot issue.container snap }

  unfoldable pub confirmed : Hit D → Issue → State D → Option Issue × State D
  confirmed h issue s = elim h.found_by.confirm [
    | none ↦ (some issue, s)
    | some confirm ↦
        let (verdict, after) = confirm issue.container s.detectors in
        (verdict, record s { detectors = after })
  ]

  unfoldable pub track_hit :
      ℕ → String → Hit D → ℕ → Option Issue → State D → Option Issue × State D
  unfolding level_events
  track_hit now id h last_run none s = (none, s)
  track_hit now id h last_run (some issue) s =
      let full = record issue { container = record issue.container { last_run = last_run } } in
      if level_events w h.found_by.name
      then (let (out, e) =
            track w.path_match now (str_append (str_append h.found_by.name "/") id) (some full) none
              s.engine in
          (out, record s { engine = e }))
      else (let (quiet, e) = is_silenced w.path_match now full s.engine in
          (some (record full { silenced = quiet }), record s { engine = e }))

  -- The second loop.
  unfoldable pub issues_of :
      ℕ → String → Option ContainerSnapshot → ℕ → List (Hit D) → State D → List Issue × State D
  unfolding confirmed track_hit
  issues_of now id snap last_run [] s = ([], s)
  issues_of now id snap last_run (h ∷ hits) s =
      let (verdict, s1) = confirmed h (merged snap h.issue) s in
      let (out, s2) = track_hit now id h last_run verdict s1 in
      let (issues, s3) = issues_of now id snap last_run hits s2 in (emit out issues, s3)

  unfoldable pub report_to : String → Bool → List Issue → State D → State D
  report_to id tty issues s = record s {
    engine = report w.utf8 w.redactor w.container_logs id tty issues s.engine;
  }

  -- With an answer of the daemon, or without one.
  unfoldable pub handle_answer :
      ℕ → ContainerEvent → Option ContainerInspect → List (Hit D) → State D → State D
  unfolding missed_run issues_of report_to
  handle_answer now cev none hits s =
      let last_run = or_else (lookup cev.id s.engine.last_runs) 0 in
      let (issues, s') = issues_of now cev.id none last_run hits s in
      report_to cev.id false issues s'
  handle_answer now cev (some inspect) hits s =
      let snap = to_snapshot w.formats cev.name inspect in
      let e = missed_run cev snap s.engine in
      let last_run = or_else (lookup cev.id e.last_runs) 0 in
      let (issues, s') = issues_of now cev.id (some snap) last_run hits (record s { engine = e }) in
      report_to cev.id inspect.tty issues s'

  unfoldable pub handle_hits : ℕ → ContainerEvent → List (Hit D) → State D → State D
  unfolding handle_answer
  handle_hits now cev [] s = s
  handle_hits now cev (h ∷ hits) s = handle_answer now cev (w.inspect cev.id) (h ∷ hits) s

  unfoldable pub handle_destroy : ℕ → ContainerEvent → State D → State D
  unfolding report_to
  handle_destroy now cev s =
      if is_destroy cev.action
      then (let (out, e) = resolve_container now cev.id (forget_container cev.id s.engine) in
          report_to "" false out (record s { engine = e }))
      else s

  -- What the event says is passed on to the detectors.
  unfoldable pub handle_container_event : ℕ → ContainerEvent → State D → State D
  unfolding note_deploy hits_of handle_hits handle_destroy
  handle_container_event now cev s =
      let noted = record s { engine = note_run cev (note_deploy cev s.engine) } in
      let (hits, s') = hits_of now cev w.event_detectors noted in
      handle_destroy now cev (handle_hits now cev hits s')

  -- Every out-of-memory kill of a container is counted, that of an excluded one too.
  unfoldable pub count_oom : Event → State D → State D
  count_oom ev s = elim w.container_oom [
    | none ↦ s
    | some f ↦ if ev.action == "oom" then record s { detectors = f s.detectors } else s
  ]

  unfoldable pub handle_event : ℕ → Event → ℕ → State D → State D
  unfolding count_oom event_labels event_excluded container_event handle_container_event
  handle_event now ev t s =
      let labels = event_labels w ev s.engine in
      if event_excluded w (trim_prefix w.affixes "/" (label ev.attributes "name")) labels
      then count_oom ev s
      else handle_container_event now (container_event w ev t labels) (count_oom ev s)
