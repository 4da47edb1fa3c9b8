-- ===== src/Config/Checks/Decide.antt =====
-- internal/config/config.go: what a check decides, put together from its parts.
use nodux.Base.{
  ℕ, ◌≡◌, ◌≢◌, refl, ◌⊎◌, inl, inr, ◌↔◌, Bool, true, false, not, ◌&&◌, ◌||◌, String, List, [], ◌∷◌,
  Option, none, some, ℤ, pos, negsuc, if◌then◌else◌, ◌==◌, string_eq, nat_eq, is_empty, differ_iff,
  All, any, arith,
}
use nodux.Action.Route.{is_nil}
use nodux.Config.Checks.{
  Check, Invalid, Decides, Field, guard, ◌followed_by◌, where_set, each, not_above_zero, below_zero,
  Positive, NonNegative, World, check_threshold, check_url, IsHttp, Url, check_parsed, less, AtMost,
  contains,
}

pub some-none : (e : Invalid) → some e ≡ none → ⊥
some-none e h = ground (arith, h)

module _ {P : Type 0} where
  pub guard-Decides : (b : Bool) (e : Invalid) → ((b ≡ false) ↔ P) → Decides (guard b e) P
  unfolding guard
  guard-Decides true e h = (λ f. absurd (some-none e f), λ p. absurd (ground (arith, h.1 p)))
  guard-Decides false e h = (λ f. h.0 refl, λ p. refl)

module _ {P Q : Type 0} where
  pub then-Decides : (c d : Check) → Decides c P → Decides d Q → Decides (c followed_by d) (P × Q)
  unfolding ◌followed_by◌
  then-Decides (some e) d h k = (λ f. absurd (some-none e f), λ p. absurd (some-none e (h.1 p.0)))
  then-Decides none d h k = (λ f. (h.0 refl, k.0 f), λ p. k.1 p.1)

  pub or_iff : (a b : Bool) → ((a ≡ false) ↔ P) → ((b ≡ false) ↔ Q) → (((a || b) ≡ false) ↔ (P × Q))
  or_iff true b h k = (λ f. absurd (ground (arith, f)), λ p. h.1 p.0)
  or_iff false b h k = (λ f. (h.0 refl, k.0 f), λ p. k.1 p.1)

  pub and_iff :
      (a b : Bool) → ((a ≡ false) ↔ P) → ((b ≡ false) ↔ Q) → (((a && b) ≡ false) ↔ (P ⊎ Q))
  and_iff true b h k =
      (λ f. inr (k.0 f), λ p. elim p [ inl q ↦ absurd (ground (arith, h.1 q)) | inr q ↦ k.1 q ])
  and_iff false b h k = (λ f. inl (h.0 refl), λ p. refl)

module _ {A P : Type 0} where
  pub where_set-Decides :
      (b : Bool) (c : Check) → ((b ≡ false) ↔ A) → Decides c P → Decides (where_set b c) (A ⊎ P)
  unfolding where_set
  where_set-Decides true c h k =
      (λ f. inr (k.0 f), λ p. elim p [ inl a ↦ absurd (ground (arith, h.1 a)) | inr q ↦ k.1 q ])
  where_set-Decides false c h k = (λ f. inl (h.0 refl), λ p. refl)

-- A check that a test chooses.
pub if-Decides :
    {A N P Q : Type 0} (b : Bool) (c d : Check)
    → ((not b ≡ false) ↔ A)
    → ((b ≡ false) ↔ N)
    → Decides c P
    → Decides d Q
    → Decides (if b then c else d) ((A × P) ⊎ (N × Q))
if-Decides true c d h k p q = (
  λ f. inl (h.0 refl, p.0 f),
  λ r. elim r [ inl (a, x) ↦ p.1 x | inr (n, x) ↦ absurd (ground (arith, k.1 n)) ],
)
if-Decides false c d h k p q = (
  λ f. inr (k.0 refl, q.0 f),
  λ r. elim r [ inl (a, x) ↦ absurd (ground (arith, h.1 a)) | inr (n, x) ↦ q.1 x ],
)

pub each-Decides {ℓ} :
    {A : Type ℓ} {P : A → Type 0} (f : A → Check)
    → ((x : A) → Decides (f x) (P x))
    → (xs : List A) → Decides (each f xs) (All P xs)
unfolding each
each-Decides f h [] = (λ e. tt, λ p. refl)
each-Decides f h (x ∷ xs) = then-Decides (f x) (each f xs) (h x) (each-Decides f h xs)

pub not_above_zero-Positive : (n : ℤ) → (not_above_zero n ≡ false) ↔ Positive n
not_above_zero-Positive (pos n) = ground arith
not_above_zero-Positive (negsuc n) = (λ e. absurd (ground (arith, e)), λ p. absurd p)

pub below_zero-NonNegative : (n : ℤ) → (below_zero n ≡ false) ↔ NonNegative n
below_zero-NonNegative (pos n) = (λ e. tt, λ p. refl)
below_zero-NonNegative (negsuc n) = (λ e. absurd (ground (arith, e)), λ p. absurd p)

-- Two texts are the same, or not.
pub same_iff : (s t : String) → (not (s == t) ≡ false) ↔ (s ≡ t)
same_iff s t = ground (arith, string_eq.test_iff s t)

pub true_iff : (b : Bool) → (not b ≡ false) ↔ (b ≡ true)
true_iff b = ground arith

pub false_iff : (b : Bool) → (b ≡ false) ↔ (b ≡ false)
false_iff b = (λ e. e, λ e. e)

module _ {Float : Type 0} (w : World Float) where
  -- A percentage above 0 and at most 100, and a time that is not negative.
  abbrev pub IsThreshold : Float → ℤ → Type 0
  IsThreshold pct n = ((w.at_most_zero pct ≡ false) × (w.over_hundred pct ≡ false)) × NonNegative n

  pub check_threshold-Decides :
      (field : String) (pct : Float) (n : ℤ)
      → Decides (check_threshold w field pct n) (IsThreshold pct n)
  unfolding check_threshold
  check_threshold-Decides field pct n =
      then-Decides _ _
        (guard-Decides _ _
          (or_iff _ _ (false_iff (w.at_most_zero pct)) (false_iff (w.over_hundred pct))))
        (guard-Decides _ _ (below_zero-NonNegative n))

  check_parsed-Decides :
      (field : Field) (u : Option Url) → Decides (check_parsed w field u) (IsHttp u)
  unfolding check_parsed
  check_parsed-Decides field none = (λ e. absurd (some-none _ e), λ p. absurd p)
  check_parsed-Decides field (some u) = guard-Decides _ _ (
      or_iff _ _ (and_iff _ _ (same_iff u.scheme "http") (same_iff u.scheme "https"))
        (differ_iff u.host ""))

  pub check_url-Decides :
      (field : Field) (raw : String) → Decides (check_url w field raw) (IsHttp (w.parse_url raw))
  unfolding check_url
  check_url-Decides field raw = check_parsed-Decides field (w.parse_url raw)

pub less-AtMost : (a b : ℤ) → (less b a ≡ false) ↔ AtMost a b
less-AtMost (pos a) (pos b) = ground arith
less-AtMost (pos a) (negsuc b) = (λ e. absurd (ground (arith, e)), λ p. absurd p)
less-AtMost (negsuc a) (pos b) = (λ e. tt, λ p. refl)
less-AtMost (negsuc a) (negsuc b) = ground arith

pub contains_iff :
    (seen : List String) (name : String) → (contains seen name ≡ false) ↔ All (λ v. v ≢ name) seen
unfolding contains any
contains_iff [] name = (λ e. tt, λ p. refl)
contains_iff (v ∷ seen) name = or_iff _ _ (differ_iff v name) (contains_iff seen name)

pub nil_iff {ℓ} : {A : Type ℓ} (xs : List A) → (not (is_nil xs) ≡ false) ↔ (xs ≡ [])
nil_iff [] = (λ e. refl, λ p. refl)
nil_iff (x ∷ xs) = (λ e. absurd (ground (arith, e)), λ p. absurd (ground (arith, p)))

pub empty_iff : (s : String) → (not (is_empty s) ≡ false) ↔ (s ≡ "")
empty_iff s = same_iff s ""

pub full_iff : (s : String) → (is_empty s ≡ false) ↔ (s ≢ "")
full_iff s = differ_iff s ""

pub not_empty_iff : (s : String) → (not (not (is_empty s)) ≡ false) ↔ (s ≢ "")
not_empty_iff s = ground (arith, full_iff s)

pub number_iff : (m n : ℕ) → (not (m == n) ≡ false) ↔ (m ≡ n)
number_iff m n = ground arith

pub some_iff {ℓ} : {A : Type ℓ} (xs : List A) → (is_nil xs ≡ false) ↔ (xs ≢ [])
some_iff [] = (λ e. absurd (ground (arith, e)), λ n. absurd (n refl))
some_iff (x ∷ xs) = (λ e p. absurd (ground (arith, p)), λ n. refl)
