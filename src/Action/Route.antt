-- ===== src/Action/Route.antt =====
-- internal/action/action.go (the notification) and route.go. `path.Match` is a parameter, with `none`
-- for its error; a receiver's `Send` is what it is given, if anything.
pub mod Routing
pub mod Tests
use nodux.Base.{
  ℕ, Bool, true, false, not, ◌&&◌, ◌||◌, String, List, [], ◌∷◌, Option, none, some, string_eq, ◌==◌,
  if◌then◌else◌, any, select, is_some, or_else,
}
use nodux.Detector.Types.{Issue}

pub record Route : Type 0 where
  pub severities : List String
  pub detectors : List String
  pub send_resolved : Bool
  pub digest : Bool

-- A digest is left whole.
pub record Notification {ℓ} (D : Type ℓ) : Type ℓ where
  pub incident_id : ℕ
  pub update : Bool
  pub alerts : List Issue
  pub summary : String
  pub digest : Option D

unfoldable pub contains : List String → String → Bool
contains list s = any (λ v. v == s) list

abbrev pub is_nil {ℓ} : {A : Type ℓ} → List A → Bool
is_nil [] = true
is_nil (x ∷ xs) = false

-- telegram.go.
unfoldable pub firing : List Issue → Bool
firing alerts = any (λ a. not a.resolved) alerts

module _ (path_match : String → String → Option Bool) where
  unfoldable pub matches : Route → Issue → Bool
  unfolding contains
  matches r issue =
      if issue.silenced || (issue.resolved && not r.send_resolved)
      then false
      else if not (is_nil r.severities) && not (contains r.severities issue.severity)
      then false
      else if is_nil r.detectors
      then true
      else any (λ pattern. or_else (path_match pattern issue.detector) false) r.detectors

  -- What the receiver behind the route gets.
  unfoldable pub send {ℓ} : {D : Type ℓ} → Route → Notification D → Option (Notification D)
  unfolding firing
  send r n =
      let kept = select (matches r) n.alerts in
      if is_some n.digest
      then (if r.digest then some n else none)
      else if is_nil kept
      then none
      else some (record n { alerts = kept; summary = if firing kept then n.summary else "" })
