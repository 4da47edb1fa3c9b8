-- ===== src/Engine/Sets.antt =====
-- internal/engine/engine.go: after `trackSet`, a detector's open episodes are what it reported.
use nodux.Base.{
  ℕ, ◌≡◌, refl, ap, ◌∙◌, Bool, false, not, ◌&&◌, ◌||◌, String, List, [], ◌∷◌, map, Option, none,
  some, string_eq, ◌==◌, arith, if_rule, is_some, select, any, Bool-cases, inl, inr, ltb,
}
use Prim.Native.String.{◌++◌ as str_append}
use package.text.Mathlib.Text.{starts_with}
use nodux.Dict.{Dict, lookup, insert, lookup-insert, lookup-delete}
use nodux.Detector.Types.{Issue, severity_rank}
use nodux.Engine.{Engine, ActiveAlert}
use nodux.Engine.Track.{
  track_locked, track_case, open_episode, escalate, close_episode, for_each, keys, set_key, is_over,
  track_set,
}
use nodux.Engine.Rounds.{active-silenced_locked}

abbrev pub is_open : String → Engine → Bool
is_open key e = is_some (lookup key e.active)

pub any-keys :
    (key : String) (m : Dict String ActiveAlert)
    → any (λ k. k == key) (keys m) ≡ is_some (lookup key m)
unfolding any lookup
any-keys key [] = refl
any-keys key ((k, a) ∷ m) = ground (arith, any-keys key m)

any-select :
    (p : String → Bool) (key : String) (ks : List String)
    → any (λ k. k == key) (select p ks) ≡ (p key && any (λ k. k == key) ks)
unfolding any select
any-select p key [] = ground arith
any-select p key (k ∷ ks) = elim (Bool-cases (k == key)) [
  | inl y ↦ ground (arith, any-select p key ks, ap p ((string_eq.test_iff k key).0 y))
  | inr n ↦ ground (arith, any-select p key ks)
]

module _ (path_match : String → String → Option Bool) where
  -- A reported problem is open afterwards; no other episode is opened or closed.
  pub open-reported :
      (now : ℕ) (k : String) (issue : Issue) (e : Engine) (key : String)
      → is_open key (track_locked path_match now k (some issue) none e).1
        ≡ (k == key || is_open key e)
  unfolding track_locked
  open-reported now k issue e key = by_case (lookup k e.active) refl
    where
      by_case :
          (o : Option ActiveAlert)
          → lookup k e.active ≡ o
          → is_open key (track_case path_match now k (some issue) none o e).1
            ≡ (k == key || is_open key e)
      by_case none h =
          unfold track_case open_episode in
          ap (λ m. is_some (lookup key m))
            (ap (insert k _)
              (active-silenced_locked path_match now (record issue { key = k }) false e))
          ∙ ap is_some (lookup-insert k key _ e.active)
          ∙ ground arith
      by_case (some a) h =
          unfold track_case in
          if_rule (λ (r : Option Issue × Engine). is_open key r.1 ≡ (k == key || is_open key e))
            (ltb (severity_rank a.issue.severity) (severity_rank issue.severity))
            (λ y.
              unfold escalate in
              ap (λ m. is_some (lookup key m))
                (ap (insert k _)
                  (active-silenced_locked path_match now (record issue { key = k }) false e))
              ∙ ap is_some (lookup-insert k key _ e.active)
              ∙ ground arith)
            λ n. ground (arith, string_eq.test_iff k key, h)

  open-reported_all :
      (now : ℕ) (key_of : Issue → String) (issues : List Issue) (e : Engine) (key : String)
      → is_open key
          (for_each (λ i. track_locked path_match now (key_of i) (some i) none) issues e).1
        ≡ (any (λ k. k == key) (map key_of issues) || is_open key e)
  unfolding for_each any
  open-reported_all now key_of [] e key = refl
  open-reported_all now key_of (i ∷ is) e key =
      let e' = (track_locked path_match now (key_of i) (some i) none e).1 in
      ground (arith, open-reported_all now key_of is e' key, open-reported now (key_of i) i e key)

  pub open-ended :
      (now : ℕ) (k : String) (e : Engine) (key : String)
      → is_open key (track_locked path_match now k none none e).1
        ≡ (is_open key e && not (k == key))
  unfolding track_locked
  open-ended now k e key = by_case (lookup k e.active) refl
    where
      by_case :
          (o : Option ActiveAlert)
          → lookup k e.active ≡ o
          → is_open key (track_case path_match now k none none o e).1
            ≡ (is_open key e && not (k == key))
      by_case none h = unfold track_case in ground (arith, string_eq.test_iff k key, h)
      by_case (some a) h =
          unfold track_case close_episode in ground (arith, lookup-delete k key e.active)

  open-ended_all :
      (now : ℕ) (ks : List String) (e : Engine) (key : String)
      → is_open key (for_each (λ k. track_locked path_match now k none none) ks e).1
        ≡ (is_open key e && not (any (λ k. k == key) ks))
  unfolding for_each any
  open-ended_all now [] e key = ground arith
  open-ended_all now (k ∷ ks) e key =
      let e' = (track_locked path_match now k none none e).1 in
      ground (arith, open-ended_all now ks e' key, open-ended now k e key)

  -- After `trackSet` an episode is open exactly if the detector reported its problem now, or if it
  -- was open and its key is not one of the detector's.
  pub open-track_set :
      (now : ℕ) (name : String) (issues : List Issue) (id : Issue → String) (e : Engine)
      (key : String)
      → is_open key (track_set path_match now name issues id e).1 ≡ (
          any (λ k. k == key) (map (set_key name id) issues)
          || (is_open key e && not (starts_with key (str_append name "/"))))
  unfolding track_set
  open-track_set now name issues id e key =
      let e' =
        (for_each (λ i. track_locked path_match now (set_key name id i) (some i) none) issues
          e).1 in
      let over = is_over name (map (set_key name id) issues) in
      ground (
        arith,
        open-reported_all now (set_key name id) issues e key,
        open-ended_all now (select over (keys e'.active)) e' key,
        any-select over key (keys e'.active),
        any-keys key e'.active,
      )
