-- ===== src/Engine/Persist.antt =====
-- internal/engine/persist.go: what survives a restart. The saved values are those that JSON is made from:
-- the JSON text and the writing of the file are not modelled, and whether it could be written is an argument.
-- The state of a detector is a parameter, with what it saves and how it loads that.
pub mod Resume
pub mod Episodes
pub mod Tests
use nodux.Base.{
  ℕ, ◌+◌, ◌-◌, Bool, true, false, not, ◌&&◌, ◌||◌, String, List, [], ◌∷◌, ◌++◌, map, any, Option,
  none, some, if◌then◌else◌, ltb, ◌==◌, nat_eq, string_eq, is_empty, is_zero, str_lt, zero_time,
}
use nodux.Dict.{Dict, lookup, insert, overlay}
use nodux.Sort.{sort_by}
use nodux.Detector.Types.{Issue}
use nodux.Incident.{
  Grouper, Saved as IncidentSaved, save_state as save_incidents, load_state as load_incidents,
}
use nodux.Silence.{
  Store, Saved as SilenceSaved, save_state as save_silences, load_state as load_silences,
}
use nodux.Engine.{Engine, ActiveAlert, ImageInfo, Options}
use nodux.Engine.Events.{Position, holds}

abbrev pub max_replay : ℕ
max_replay = 3600000000000

abbrev pub state_version : ℕ
state_version = 1

pub record SavedEvents : Type 0 where
  pub since : ℕ
  pub handled : List String

pub record SavedEpisode : Type 0 where
  pub key : String
  pub since : ℕ
  pub container_id : String
  pub issue : Issue
  pub held : Bool

-- An absent part is `none`; an image of the file may be null.
pub record SavedState (Raw : Type 0) : Type 0 where
  pub version : ℕ
  pub events : SavedEvents
  pub episodes : List SavedEpisode
  pub cooldowns : Dict String ℕ
  pub images : Dict String (Option ImageInfo)
  pub detectors : Dict String Raw
  pub incidents : Option IncidentSaved
  pub silences : Option SilenceSaved

-- A stateful detector: an error of `SaveState` is `none`; `LoadState` leaves what an error leaves.
pub record Stateful (Raw : Type 0) : Type 1 where
  pub State : Type 0
  pub name : String
  pub state : State
  pub save_state : State → Option Raw
  pub load_state : Raw → State → State

-- The fields of the engine that are saved, or read for it.
pub record Saver (Raw : Type 0) : Type 1 where
  pub engine : Engine
  pub events : Position
  pub grouper : Grouper
  pub last_seen : List String
  pub stateful : List (Stateful Raw)
  pub save_failing : Bool

-- What the configuration says: the names of the detectors, and the containers that are left out.
pub record Setup : Type 0 where
  pub detectors : List String
  pub level_events : List String
  pub host_detectors : List String
  pub probes : List String
  pub expected : Option String
  pub exclude_containers : List String

abbrev pub docker_detector : String
docker_detector = "docker"

abbrev pub saved_episode : String × ActiveAlert → SavedEpisode
saved_episode (key, a) = record {
  key = key;
  since = a.since;
  container_id = a.container_id;
  issue = record a.issue { logs = [] };
  held = not a.notified;
}

abbrev pub present {ℓ} : {A : Type ℓ} → Dict String A → Dict String (Option A)
present [] = []
present ((k, v) ∷ m) = (k, some v) ∷ present m

-- The entries that are not null, written into a map.
unfoldable pub overlay_present :
    Dict String (Option ImageInfo) → Dict String ImageInfo → Dict String ImageInfo
overlay_present [] m = m
overlay_present ((k, none) ∷ s) m = overlay_present s m
overlay_present ((k, some v) ∷ s) m = overlay_present s (insert k v m)

unfoldable pub saved_events : Position → SavedEvents
saved_events p = record {
  since = p.since;
  handled = if p.since == p.last then sort_by str_lt p.handled else [];
}

unfoldable pub known_detectors : Setup → Engine → List String
known_detectors c e =
    c.detectors
    ++ c.level_events
    ++ c.host_detectors
    ++ c.probes
    ++ (elim c.expected [ none ↦ [] | some name ↦ name ∷ [] ])
    ++ (if ltb 0 e.opts.docker_down_after then docker_detector ∷ [] else [])

-- `evSince`, `evLast` and `evHandled`, where the stream is resumed.
unfoldable pub restore_events : ℕ → SavedEvents → Position
restore_events now saved =
    if is_zero saved.since || ltb now saved.since
    then record { since = now; last = zero_time; handled = [] }
    else if ltb max_replay (now - saved.since)
    then record { since = now - max_replay; last = zero_time; handled = [] }
    else record { since = saved.since; last = saved.since; handled = saved.handled }

unfoldable pub restored_alert : SavedEpisode → ActiveAlert
restored_alert ep = record {
  issue = record ep.issue { key = ep.key };
  since = ep.since;
  container_id = ep.container_id;
  notified = not ep.held;
}

module _ (detector_of : String → String) (c : Setup) where
  -- Whether an episode is still looked after; `detector_of` is what `strings.Cut` finds before a slash.
  unfoldable pub resumes : List String → SavedEpisode → Bool
  resumes known ep =
      holds known (detector_of ep.key)
      && not (
          holds c.exclude_containers ep.issue.container.name
          && not (is_empty ep.issue.container.name))

  unfoldable pub restore_episodes :
      List String
      → List SavedEpisode
      → Dict String ActiveAlert × List String
      → Dict String ActiveAlert × List String
  unfolding resumes restored_alert
  restore_episodes known [] (active, last_seen) = (active, last_seen)
  restore_episodes known (ep ∷ eps) (active, last_seen) = restore_episodes known eps (
      if resumes known ep
      then (
        insert ep.key (restored_alert ep) active,
        if is_empty ep.container_id then last_seen else ep.container_id ∷ last_seen,
      )
      else (active, last_seen))

module _ {Raw : Type 0} where
  unfoldable pub save_detectors : List (Stateful Raw) → Dict String Raw → Dict String Raw
  save_detectors [] m = m
  save_detectors (d ∷ ds) m = elim (d.save_state d.state) [
    | none ↦ save_detectors ds m
    | some raw ↦ save_detectors ds (insert d.name raw m)
  ]

  unfoldable pub restore_detectors : Dict String Raw → List (Stateful Raw) → List (Stateful Raw)
  restore_detectors saved [] = []
  restore_detectors saved (d ∷ ds) =
      (elim (lookup d.name saved) [
        | none ↦ d
        | some raw ↦ record d { state = d.load_state raw d.state }
      ])
      ∷ restore_detectors saved ds

  -- What is written, and the engine then; `now` and `later` are the clock of the silences.
  unfoldable pub save_state : ℕ → ℕ → Bool → Saver Raw → SavedState Raw × Saver Raw
  unfolding saved_events save_detectors
  save_state now later written s =
      let silences = (elim s.engine.silences as (λ o. Option SilenceSaved × Option Store) [
        | none ↦ (none, none)
        | some store ↦
            (some (save_silences now later store).0, some (save_silences now later store).1)
      ]) in
      (
        record {
          version = state_version;
          events = saved_events s.events;
          episodes = sort_by (λ a b. str_lt a.key b.key) (map saved_episode s.engine.active);
          cooldowns = s.engine.last_alert;
          images = present s.engine.images;
          detectors = save_detectors s.stateful [];
          incidents = some (save_incidents s.grouper);
          silences = silences.0;
        },
        record s { engine = record s.engine { silences = silences.1 }; save_failing = not written },
      )

  module _ (path_match : String → String → Option Bool) (detector_of : String → String)
      (c : Setup) where
    -- `restore`, for a file that could be read; `none` is a file that there is not.
    unfoldable pub restore : ℕ → Option (SavedState Raw) → Saver Raw → Saver Raw
    unfolding known_detectors restore_episodes restore_detectors restore_events overlay_present
    restore now none s = record s { events = record s.events { since = now } }
    restore now (some st) s =
        if not (st.version == state_version)
        then record s { events = record s.events { since = now } }
        else (let eps =
              restore_episodes detector_of c (known_detectors c s.engine) st.episodes
                (s.engine.active, s.last_seen) in
            record s {
              engine = record s.engine {
                active = eps.0;
                last_alert = overlay st.cooldowns s.engine.last_alert;
                images = overlay_present st.images s.engine.images;
                silences = elim s.engine.silences [
                  | none ↦ none
                  | some store ↦ elim st.silences [
                    | none ↦ some store
                    | some saved ↦ some (load_silences path_match now saved store)
                  ]
                ];
              };
              events = restore_events now st.events;
              grouper = elim st.incidents [
                | none ↦ s.grouper
                | some saved ↦ load_incidents saved s.grouper
              ];
              last_seen = eps.1;
              stateful = restore_detectors st.detectors s.stateful;
            })
