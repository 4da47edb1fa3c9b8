-- ===== src/Engine/Handle/Destroyed.antt =====
-- internal/engine/engine.go: what the engine keeps of a container after it was destroyed.
use nodux.Base.{ℕ, ◌≡◌, arith, ap, ◌∙◌, true, false, String, none, string_eq, ◌==◌}
use nodux.Detector.Types.{ContainerEvent, Labels, label, destroy}
use nodux.Detector.Signal.{trim_prefix}
use nodux.Engine.Resolved.{belongs, resolve_container-belongs}
use nodux.Engine.Upkeep.{forget_container}
use nodux.Engine.Report.{report}
use nodux.Engine.Handle.{handle_event, handle_container_event, handle_destroy, report_to, count_oom}
use nodux.Engine.Notice.{
  Event, Watch, State, container_event, raw_event, with_health_status, with_stop_signal, action_of,
  event_labels, event_excluded, is_destroy,
}

module _ {D : Type 0} (w : Watch D) where
  -- No episode of the container is open.
  handle_destroy-belongs :
      (now : ℕ) (cev : ContainerEvent) (s : State D) (key : String)
      → is_destroy cev.action ≡ true
      → belongs cev.id key (handle_destroy w now cev s).engine ≡ false
  unfolding handle_destroy report_to report
  handle_destroy-belongs now cev s key h =
      rw h (resolve_container-belongs now cev.id key (forget_container cev.id s.engine))

  action_of-destroy : (s : String) → s ≡ "destroy" → action_of s ≡ destroy
  unfolding action_of
  action_of-destroy s h = ap action_of h

  with_health_status-destroy :
      (ev : Event) (cev : ContainerEvent)
      → ev.action ≡ "destroy"
      → w.cut_colon "destroy" ≡ none
      → with_health_status w ev cev ≡ cev
  unfolding with_health_status
  with_health_status-destroy ev cev act cut =
      let uncut : w.cut_colon ev.action ≡ none = ap w.cut_colon act ∙ cut in
      let other_action : (ev.action == "health_status") ≡ false =
        ap (λ (s : String). s == "health_status") act in
      ground (arith, uncut, other_action)

  with_stop_signal-destroy :
      (cev : ContainerEvent) → cev.action ≡ destroy → with_stop_signal w cev ≡ cev
  unfolding with_stop_signal
  with_stop_signal-destroy cev h = ground (arith, h)

  container_event-destroy :
      (ev : Event) (t : ℕ) (labels : Labels)
      → ev.action ≡ "destroy"
      → w.cut_colon "destroy" ≡ none
      → container_event w ev t labels ≡ raw_event w ev t labels
  unfolding container_event
  container_event-destroy ev t labels act cut =
      ap (with_stop_signal w) (with_health_status-destroy ev (raw_event w ev t labels) act cut)
      ∙ with_stop_signal-destroy (raw_event w ev t labels)
          (unfold raw_event in action_of-destroy ev.action act)

  handle_container_event-belongs :
      (now : ℕ) (cev : ContainerEvent) (s : State D) (key : String)
      → is_destroy cev.action ≡ true
      → belongs cev.id key (handle_container_event w now cev s).engine ≡ false
  unfolding handle_container_event
  handle_container_event-belongs now cev s key h = handle_destroy-belongs now cev _ key h

  -- When a container that is not excluded is destroyed, no episode of it is open afterwards, also none that a
  -- detector found in the event itself.
  pub handle_event-belongs :
      (now : ℕ) (ev : Event) (t : ℕ) (s : State D) (key : String)
      → ev.action ≡ "destroy"
      → w.cut_colon "destroy" ≡ none
      → event_excluded w
          (trim_prefix w.affixes "/" (label ev.attributes "name"))
          (event_labels w ev s.engine)
        ≡ false
      → belongs ev.id key (handle_event w now ev t s).engine ≡ false
  unfolding handle_event
  handle_event-belongs now ev t s key act cut watched =
      let raw = raw_event w ev t (event_labels w ev s.engine) in
      let ended : is_destroy raw.action ≡ true =
        unfold raw_event in ap is_destroy (action_of-destroy ev.action act) in
      rw (watched, container_event-destroy ev t (event_labels w ev s.engine) act cut)
        (unfold raw_event in handle_container_event-belongs now raw (count_oom w ev s) key ended)
