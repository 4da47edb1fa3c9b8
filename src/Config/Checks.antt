-- ===== src/Config/Checks.antt =====
-- internal/config/config.go: what the checks of the configuration share, checkThreshold and checkURL. A
-- check is the error that it finds, if any; an error names the field and what is wrong with it. The packages
-- that the checks call are a record of functions.
pub mod Decide
use Prim.Native.String.{◌++◌ as str_append}
use nodux.Base.{
  ℕ, zero, suc, ◌≡◌, refl, ◌≢◌, ◌⊎◌, inl, inr, ◌↔◌, ◌≤◌, ◌<◌, Bool, true, false, not, ◌&&◌, ◌||◌,
  String, List, [], ◌∷◌, Option, none, some, ℤ, pos, negsuc, if◌then◌else◌, ltb, ◌==◌, string_eq,
  is_empty, All, any, arith,
}

pub data Problem : Type 0 where
  not_positive negative is_missing out_of_range bad_url : Problem
  bad_choice bad_path bad_pattern bad_host_port : String → Problem
  bad_status : ℤ → Problem
  duplicate : String → Problem
  more_than_warning not_one_of unfit_status unfit_verify no_topic no_state_dir bad_schedule :
      Problem
  foreign : List String → Problem

-- Where a problem is: a field, one of a list's elements by its position or its name, and what follows.
pub data Field : Type 0 where
  key : String → Field
  at : String → ℕ → Field
  named : String → String → String → Field
  indexed : String → ℕ → String → Field

pub record Invalid : Type 0 where
  pub field : Field
  pub problem : Problem

abbrev pub Check : Type 0
Check = Option Invalid

abbrev pub wrong : Field → Problem → Invalid
wrong field problem = record { field = field; problem = problem }

-- `if condition { return error }`.
unfoldable pub guard : Bool → Invalid → Check
guard true e = some e
guard false e = none

-- One check after another: the first error is returned.
infixr 3 ◌followed_by◌
unfoldable pub ◌followed_by◌ : Check → Check → Check
(some e) followed_by d = some e
none followed_by d = d

-- A check that is made under a condition.
unfoldable pub where_set : Bool → Check → Check
where_set true c = c
where_set false c = none

-- The loop over a list.
unfoldable pub each {ℓ} : {A : Type ℓ} → (A → Check) → List A → Check
unfolding ◌followed_by◌
each f [] = none
each f (x ∷ xs) = f x followed_by each f xs

-- `n <= 0` and `n < 0`.
abbrev pub not_above_zero : ℤ → Bool
not_above_zero (pos n) = ltb n 1
not_above_zero (negsuc n) = true

abbrev pub below_zero : ℤ → Bool
below_zero (pos n) = false
below_zero (negsuc n) = true

-- The parts of a URL that are looked at.
pub record Url : Type 0 where
  pub scheme : String
  pub host : String
  pub path : String

-- `float64` comparisons with 0 and 100; `Level.UnmarshalText`, `filepath.IsAbs`, `regexp.Compile`,
-- `net.SplitHostPort` and `path.Match`, whether they succeed; `url.Parse`; `strings.Trim(_, "/")`.
pub record World (Float : Type 0) : Type 0 where
  pub at_most_zero : Float → Bool
  pub less_than_zero : Float → Bool
  pub over_hundred : Float → Bool
  pub is_level : String → Bool
  pub is_abs : String → Bool
  pub compiles : String → Bool
  pub splits : String → Bool
  pub is_pattern : String → Bool
  pub parse_url : String → Option Url
  pub trim_slashes : String → String

module _ {Float : Type 0} (w : World Float) where
  unfoldable pub check_threshold : String → Float → ℤ → Check
  unfolding guard ◌followed_by◌
  check_threshold field pct for_seconds =
      guard (w.at_most_zero pct || w.over_hundred pct)
        (wrong (key (str_append field ".threshold_percent")) out_of_range)
      followed_by guard (below_zero for_seconds)
          (wrong (key (str_append field ".for_seconds")) negative)

  -- The condition on what `url.Parse` returns.
  unfoldable pub check_parsed : Field → Option Url → Check
  unfolding guard
  check_parsed field none = some (wrong field bad_url)
  check_parsed field (some u) =
      guard ((not (u.scheme == "http") && not (u.scheme == "https")) || is_empty u.host)
        (wrong field bad_url)

  unfoldable pub check_url : Field → String → Check
  unfolding check_parsed
  check_url field raw = check_parsed field (w.parse_url raw)

-- What an accepted URL is.
abbrev pub IsHttp : Option Url → Type 0
IsHttp none = ⊥
IsHttp (some u) = ((u.scheme ≡ "http") ⊎ (u.scheme ≡ "https")) × (u.host ≢ "")

abbrev pub Positive : ℤ → Type 0
Positive (pos n) = 0 < n
Positive (negsuc n) = ⊥

abbrev pub NonNegative : ℤ → Type 0
NonNegative (pos n) = Unit
NonNegative (negsuc n) = ⊥

-- A check that passes exactly if something holds.
abbrev pub Decides : Check → Type 0 → Type 0
Decides c P = (c ≡ none) ↔ P

-- `a < b`, and what its failure is.
abbrev pub less : ℤ → ℤ → Bool
less (pos a) (pos b) = ltb a b
less (pos a) (negsuc b) = false
less (negsuc a) (pos b) = true
less (negsuc a) (negsuc b) = ltb b a

abbrev pub AtMost : ℤ → ℤ → Type 0
AtMost (pos a) (pos b) = a ≤ b
AtMost (pos a) (negsuc b) = ⊥
AtMost (negsuc a) (pos b) = Unit
AtMost (negsuc a) (negsuc b) = b ≤ a

-- The map of the names that were met, and what it is for.
unfoldable pub contains : List String → String → Bool
unfolding any
contains seen name = any (λ v. v == name) seen

-- No name is one of some others or of those before it.
abbrev pub AreNew : List String → List String → Type 0
AreNew seen [] = Unit
AreNew seen (name ∷ names) = All (λ v. v ≢ name) seen × AreNew (name ∷ seen) names
