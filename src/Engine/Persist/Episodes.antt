-- ===== src/Engine/Persist/Episodes.antt =====
-- internal/engine/persist.go: the open episodes after a restart.
use nodux.Base.{
  ℕ, ◌≡◌, refl, ap, ap₂, ◌∙◌, Bool, not, String, List, [], ◌∷◌, map, Option, none, some,
  if◌then◌else◌, string_eq, str_lt, arith, is_empty,
}
use nodux.Dict.{Dict, lookup, insert, Distinct, lookup-insert}
use nodux.Sort.{sort_by, lookup-sort_by, Distinct-sort_by}
use nodux.Engine.{ActiveAlert}
use nodux.Engine.Persist.{
  SavedEpisode, Saver, Setup, saved_episode, restored_alert, resumes, restore_episodes,
  known_detectors, save_state, restore,
}

-- The saved episodes as a map.
abbrev entry : SavedEpisode → String × SavedEpisode
entry ep = (ep.key, ep)

-- What is saved of the episode of a key.
abbrev saved_of : String → Option ActiveAlert → Option SavedEpisode
saved_of key none = none
saved_of key (some a) = some (saved_episode (key, a))

lookup-saved :
    (key : String) (active : Dict String ActiveAlert)
    → lookup key (map entry (map saved_episode active)) ≡ saved_of key (lookup key active)
unfolding lookup
lookup-saved key [] = refl
lookup-saved key ((k, a) ∷ active) =
    ground (arith, lookup-saved key active, string_eq.test_iff k key)

Distinct-saved :
    (active : Dict String ActiveAlert)
    → Distinct active
    → Distinct (map entry (map saved_episode active))
Distinct-saved [] d = tt
Distinct-saved ((k, a) ∷ active) d =
    (lookup-saved k active ∙ ap (saved_of k) d.0, Distinct-saved active d.1)

module _ (detector_of : String → String) (c : Setup) where
  -- What a restart makes of a saved episode, and of none.
  abbrev reopened : List String → Option SavedEpisode → Option ActiveAlert → Option ActiveAlert
  reopened known none before = before
  reopened known (some ep) before =
      if resumes detector_of c known ep then some (restored_alert ep) else before

  lookup-restore_episodes :
      (known : List String) (key : String) (eps : List SavedEpisode)
      (st : Dict String ActiveAlert × List String)
      → Distinct (map entry eps)
      → lookup key (restore_episodes detector_of c known eps st).0
        ≡ reopened known (lookup key (map entry eps)) (lookup key st.0)
  unfolding restore_episodes lookup
  lookup-restore_episodes known key [] st d = refl
  lookup-restore_episodes known key (ep ∷ eps) st d = ground (
    arith,
    lookup-restore_episodes known key eps
        (if resumes detector_of c known ep
          then (
            insert ep.key (restored_alert ep) st.0,
            if is_empty ep.container_id then st.1 else ep.container_id ∷ st.1,
          )
          else st)
        d.1,
    d.0,
    lookup-insert ep.key key (restored_alert ep) st.0,
    string_eq.test_iff ep.key key,
  )

not-not : (b : Bool) → not (not b) ≡ b
not-not b = ground arith

-- What an episode is after a restart: its logs are gone, and the issue has the key that it is kept under.
abbrev pub remembered :
    (String → String) → Setup → List String → String → Option ActiveAlert → Option ActiveAlert
remembered detector_of c known key none = none
remembered detector_of c known key (some a) =
    if resumes detector_of c known (saved_episode (key, a))
    then some (record a { issue = record a.issue { key = key; logs = [] } })
    else none

remembered-reopened :
    (detector_of : String → String) (c : Setup) (known : List String) (key : String)
    (o : Option ActiveAlert)
    → reopened detector_of c known (saved_of key o) none ≡ remembered detector_of c known key o
unfolding restored_alert
remembered-reopened detector_of c known key none = refl
remembered-reopened detector_of c known key (some a) =
    ap
      (λ b.
        if resumes detector_of c known (saved_episode (key, a))
        then some (record a { issue = record a.issue { key = key; logs = [] }; notified = b })
        else none)
      (not-not a.notified)

module _ {Raw : Type 0} where
  -- A restart keeps the open episodes: started with no open episode and given the state that an engine
  -- saved, the new engine has under each key the episode that was open under it, told or held back as it
  -- was, if its detector is still configured and its container not excluded now, and none otherwise.
  pub restore-save_state :
      (path_match : String → String → Option Bool) (detector_of : String → String) (c : Setup)
      (now later start : ℕ) (written : Bool) (old fresh : Saver Raw) (key : String)
      → Distinct old.engine.active
      → fresh.engine.active ≡ []
      → lookup key
          (restore path_match detector_of c start
            (some (save_state now later written old).0)
            fresh).engine.active
        ≡ remembered detector_of c
            (known_detectors c fresh.engine)
            key
            (lookup key old.engine.active)
  unfolding restore save_state lookup
  restore-save_state path_match detector_of c now later start written old fresh key d none_open =
      lookup-restore_episodes detector_of c known key sorted (fresh.engine.active, fresh.last_seen)
        (Distinct-sort_by by_key entry (map saved_episode old.engine.active) saved_once)
      ∙ ap₂ (reopened detector_of c known)
          (lookup-sort_by by_key entry key (map saved_episode old.engine.active) saved_once
            ∙ lookup-saved key old.engine.active)
          (ap (lookup key) none_open)
      ∙ remembered-reopened detector_of c known key (lookup key old.engine.active)
    where
      by_key : SavedEpisode → SavedEpisode → Bool
      by_key a b = str_lt a.key b.key

      known : List String
      known = known_detectors c fresh.engine

      sorted : List SavedEpisode
      sorted = sort_by by_key (map saved_episode old.engine.active)

      saved_once : Distinct (map entry (map saved_episode old.engine.active))
      saved_once = Distinct-saved old.engine.active d
