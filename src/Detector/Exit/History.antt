-- ===== src/Detector/Exit/History.antt =====
-- internal/detector/exit.go: which exits are reported, by the events of the container since its last
-- start.
use nodux.Base.{
  ◌≡◌, refl, ap, ◌∙◌, Bool, true, false, not, ◌&&◌, ◌||◌, String, List, [], ◌∷◌, string_eq, ◌==◌,
  if◌then◌else◌, is_some, ℤ, arith,
}
use nodux.Dict.{Dict, lookup, lookup-insert, lookup-delete}
use nodux.Detector.Types.{
  ContainerEvent, Action, create, start, kill, oom, die, destroy, health_status, other,
}
use nodux.Detector.Labels.{Parsers}
use nodux.Detector.Exit.{
  ExitDetector, new, observe, observe_action, flag, is_stop_request, ignored, handle_action,
  handle_event,
}

abbrev pub is_stop : Action → ContainerEvent → Bool
is_stop kill ev = is_stop_request ev
is_stop _ ev = false

abbrev pub is_oom : Action → ContainerEvent → Bool
is_oom oom ev = true
is_oom _ ev = false

abbrev pub is_die : Action → Bool
is_die die = true
is_die _ = false

abbrev pub is_new_run : Action → Bool
is_new_run start = true
is_new_run destroy = true
is_new_run _ = false

-- Whether an event of a kind came for the container since its last start or removal. The events are
-- given the newest first.
abbrev pub since_start : (Action → ContainerEvent → Bool) → String → List ContainerEvent → Bool
since_start q id [] = false
since_start q id (ev ∷ older) =
    if ev.id == id
    then (if is_new_run ev.action then false else q ev.action ev || since_start q id older)
    else since_start q id older

flag-observe_action :
    (a : Action) (id : String) (ev : ContainerEvent) (t : Dict String Bool)
    → flag id (observe_action a ev t) ≡ (
        if ev.id == id
        then (if is_new_run a then false else is_stop a ev || flag id t)
        else flag id t)
flag-observe_action create id ev t = ground arith
flag-observe_action start id ev t = ground (arith, lookup-delete ev.id id t)
flag-observe_action kill id ev t = ground (arith, lookup-insert ev.id id true t)
flag-observe_action oom id ev t = ground arith
flag-observe_action die id ev t = ground arith
flag-observe_action destroy id ev t = ground (arith, lookup-delete ev.id id t)
flag-observe_action health_status id ev t = ground arith
flag-observe_action other id ev t = ground arith

flag-oomed_action :
    (p : Parsers) (a : Action) (id : String) (ev : ContainerEvent) (d : ExitDetector)
    → flag id (handle_action p a ev d).1.oomed ≡ (
        if ev.id == id
        then (if is_new_run a then false else is_oom a ev || flag id d.oomed)
        else flag id d.oomed)
unfolding handle_action
flag-oomed_action p create id ev d = ground arith
flag-oomed_action p start id ev d = ground (arith, lookup-delete ev.id id d.oomed)
flag-oomed_action p kill id ev d = ground arith
flag-oomed_action p oom id ev d = ground (arith, lookup-insert ev.id id true d.oomed)
flag-oomed_action p die id ev d = ground arith
flag-oomed_action p destroy id ev d = ground (arith, lookup-delete ev.id id d.oomed)
flag-oomed_action p health_status id ev d = ground arith
flag-oomed_action p other id ev d = ground arith

kept_action :
    (p : Parsers) (a : Action) (ev : ContainerEvent) (d : ExitDetector)
    → ((handle_action p a ev d).1.stops ≡ d.stops)
      × ((handle_action p a ev d).1.skip_oom ≡ d.skip_oom)
      × ((handle_action p a ev d).1.ignore_codes ≡ d.ignore_codes)
unfolding handle_action
kept_action p create ev d = (refl, refl, refl)
kept_action p start ev d = (refl, refl, refl)
kept_action p kill ev d = (refl, refl, refl)
kept_action p oom ev d = (refl, refl, refl)
kept_action p die ev d = (ground arith, ground arith, ground arith)
kept_action p destroy ev d = (refl, refl, refl)
kept_action p health_status ev d = (refl, refl, refl)
kept_action p other ev d = (refl, refl, refl)

reports_action :
    (p : Parsers) (a : Action) (ev : ContainerEvent) (d : ExitDetector)
    → is_some (handle_action p a ev (record d { stops = observe_action a ev d.stops })).0 ≡ (
        is_die a
        && not (flag ev.id d.stops)
        && not (d.skip_oom && flag ev.id d.oomed)
        && not (ignored p ev d))
unfolding handle_action ignored
reports_action p create ev d = refl
reports_action p start ev d = refl
reports_action p kill ev d = refl
reports_action p oom ev d = refl
reports_action p die ev d = ground arith
reports_action p destroy ev d = refl
reports_action p health_status ev d = refl
reports_action p other ev d = refl

ignored-options :
    (p : Parsers) (ev : ContainerEvent) (c d : ExitDetector)
    → c.ignore_codes ≡ d.ignore_codes
    → ignored p ev c ≡ ignored p ev d
unfolding ignored
ignored-options p ev c d h = ground (arith, h)

module _ (p : Parsers) where
  -- The detector after a history, the newest event first.
  abbrev pub after : ExitDetector → List ContainerEvent → ExitDetector
  after d [] = d
  after d (ev ∷ older) = (handle_event p ev (after d older)).1

  stops-after :
      (codes : List ℤ) (skip : Bool) (id : String) (older : List ContainerEvent)
      → flag id (after (new codes skip) older).stops ≡ since_start is_stop id older
  unfolding new lookup handle_event observe
  stops-after codes skip id [] = refl
  stops-after codes skip id (ev ∷ older) =
      let d = after (new codes skip) older in
      ap (flag id) (kept_action p ev.action ev (record d { stops = observe ev d.stops })).0
      ∙ flag-observe_action ev.action id ev d.stops
      ∙ ap
          (λ b.
            if ev.id == id
            then (if is_new_run ev.action then false else is_stop ev.action ev || b)
            else b)
          (stops-after codes skip id older)

  oomed-after :
      (codes : List ℤ) (skip : Bool) (id : String) (older : List ContainerEvent)
      → flag id (after (new codes skip) older).oomed ≡ since_start is_oom id older
  unfolding new lookup handle_event observe
  oomed-after codes skip id [] = refl
  oomed-after codes skip id (ev ∷ older) =
      let d = after (new codes skip) older in
      flag-oomed_action p ev.action id ev (record d { stops = observe ev d.stops })
      ∙ ap
          (λ b.
            if ev.id == id
            then (if is_new_run ev.action then false else is_oom ev.action ev || b)
            else b)
          (oomed-after codes skip id older)

  options-after :
      (codes : List ℤ) (skip : Bool) (older : List ContainerEvent)
      → ((after (new codes skip) older).skip_oom ≡ skip)
        × ((after (new codes skip) older).ignore_codes ≡ codes)
  unfolding new handle_event
  options-after codes skip [] = (refl, refl)
  options-after codes skip (ev ∷ older) =
      let d = after (new codes skip) older in
      let keep = kept_action p ev.action ev (record d { stops = observe ev d.stops }) in
      let (s, i) = options-after codes skip older in (keep.1 ∙ s, keep.2 ∙ i)

  -- An exit is reported exactly if, since the container's last start or removal, no one asked it to
  -- stop, if it was not killed for want of memory where those exits are left to the OOM detector,
  -- and if its code is not ignored. No other event is reported.
  pub handle_event-reports :
      (codes : List ℤ) (skip : Bool) (older : List ContainerEvent) (ev : ContainerEvent)
      → is_some (handle_event p ev (after (new codes skip) older)).0 ≡ (
          is_die ev.action
          && not (since_start is_stop ev.id older)
          && not (skip && since_start is_oom ev.id older)
          && not (ignored p ev (new codes skip)))
  unfolding handle_event observe
  handle_event-reports codes skip older ev =
      let d = after (new codes skip) older in
      let (s, i) = options-after codes skip older in
      ground (
        arith,
        reports_action p ev.action ev d,
        stops-after codes skip ev.id older,
        oomed-after codes skip ev.id older,
        s,
        ignored-options p ev d (new codes skip) (unfold new in i),
      )
