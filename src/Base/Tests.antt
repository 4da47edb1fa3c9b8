-- ===== src/Base/Tests.antt =====
-- Boolean tests, the conditional, and equality tests as an interface.
use Prim.Native.Nat.{ℕ, ◌≤◌, ◌<◌, compare, Ordering}
use Prim.Native.String.{String, compare as str_compare}
use mathlib.Core.Path.{◌≡◌, refl}
use mathlib.Core.Logic.{◌↔◌, ◌≢◌, ◌⊎◌, inl, inr}
use mathlib.Core.Bool.{Bool, true, false}
use mathlib.Core.Option.{Option, none, some}
use native.Mathlib.Omega.{arith}
use text.Mathlib.Text.{◌==◌ as str_test}
use text.Mathlib.TextEquality.{eq_iff}

abbrev pub ltb : ℕ → ℕ → Bool
ltb a b = elim (compare a b) [ Ordering.lt ↦ true | _ ↦ false ]

abbrev pub leb : ℕ → ℕ → Bool
leb a b = elim (compare a b) [ Ordering.gt ↦ false | _ ↦ true ]

abbrev pub nat_test : ℕ → ℕ → Bool
nat_test a b = elim (compare a b) [ Ordering.eq ↦ true | _ ↦ false ]

infix 1 if◌then◌else◌
abbrev pub if◌then◌else◌ {ℓ} : {A : Type ℓ} → Bool → A → A → A
if true then x else y = x
if false then x else y = y

pub ltb→lt : (a b : ℕ) → ltb a b ≡ true → a < b
ltb→lt a b h = ground arith

pub lt→ltb : (a b : ℕ) → a < b → ltb a b ≡ true
lt→ltb a b h = ground arith

pub leb→le : (a b : ℕ) → leb a b ≡ true → a ≤ b
leb→le a b h = ground arith

pub le→leb : (a b : ℕ) → a ≤ b → leb a b ≡ true
le→leb a b h = ground arith

pub ruleset tests = (arith, ltb→lt, lt→ltb, leb→le, le→leb)

-- Keys that a Boolean test tells apart.
pub record HasEq {ℓ} (K : Type ℓ) : Type ℓ where
  pub test : K → K → Bool
  pub test_iff : (x y : K) → (test x y ≡ true) ↔ (x ≡ y)

infix 50 ◌==◌
abbrev pub ◌==◌ {ℓ} : {K : Type ℓ} ⦃k : HasEq K⦄ → K → K → Bool
◌==◌ ⦃k⦄ x y = k.test x y

pub ==_refl {ℓ} : {K : Type ℓ} ⦃k : HasEq K⦄ (x : K) → (x == x) ≡ true
==_refl ⦃k⦄ x = (k.test_iff x x).1 refl

pub nat_test_iff : (m n : ℕ) → (nat_test m n ≡ true) ↔ (m ≡ n)
nat_test_iff m n = ground arith

instance abbrev pub string_eq : HasEq String
string_eq = record { test = str_test; test_iff = eq_iff }

instance abbrev pub nat_eq : HasEq ℕ
nat_eq = record { test = nat_test; test_iff = nat_test_iff }

-- To split on a computed value and keep the equation.
pub Bool-cases : (b : Bool) → (b ≡ true) ⊎ (b ≡ false)
Bool-cases true = inl refl
Bool-cases false = inr refl

pub Option-cases {ℓ} : {A : Type ℓ} (o : Option A) → (o ≡ none) ⊎ ((a : A) × (o ≡ some a))
Option-cases none = inl refl
Option-cases (some a) = inr (a, refl)

abbrev pub is_some {ℓ} : {A : Type ℓ} → Option A → Bool
is_some none = false
is_some (some a) = true

abbrev pub or_else {ℓ} : {A : Type ℓ} → Option A → A → A
or_else none d = d
or_else (some a) d = a

-- The zero value of `time.Time`.
abbrev pub zero_time : ℕ
zero_time = 0

abbrev pub is_zero : ℕ → Bool
is_zero t = t == zero_time

-- `strings` and strings as conditions compare with the empty text.
abbrev pub is_empty : String → Bool
is_empty s = s == ""

-- Two texts are not the same.
pub differ_iff : (s t : String) → ((s == t) ≡ false) ↔ (s ≢ t)
differ_iff s t = (
  λ e p. absurd (ground (arith, e, (string_eq.test_iff s t).1 p)),
  λ n. elim (Bool-cases (s == t)) [ inl e ↦ absurd (n ((string_eq.test_iff s t).0 e)) | inr e ↦ e ],
)

-- A conditional has a property that both of its branches have.
pub if_rule {ℓ κ} :
    {A : Type ℓ} (P : A → Type κ) (b : Bool) {x y : A}
    → (b ≡ true → P x)
    → (b ≡ false → P y)
    → P (if b then x else y)
if_rule P true f g = f refl
if_rule P false f g = g refl

-- And so has a case distinction on an option.
pub option_rule {ℓ κ μ} :
    {A : Type ℓ} {B : Type κ} (P : B → Type μ) (o : Option A) {x : B} {f : A → B}
    → (o ≡ none → P x)
    → ((a : A) → o ≡ some a → P (f a))
    → P (elim o [ none ↦ x | some a ↦ f a ])
option_rule P none g h = g refl
option_rule P (some a) g h = h a refl

-- A signed number; `negsuc n` is -(n + 1).
pub data ℤ : Type 0 where
  pos : ℕ → ℤ
  negsuc : ℕ → ℤ

-- The size of a positive number.
abbrev pub positive : ℤ → Option ℕ
positive (pos n) = if n == 0 then none else some n
positive (negsuc n) = none

-- Go's order of texts.
abbrev pub str_lt : String → String → Bool
str_lt a b = elim (str_compare a b) [ Ordering.lt ↦ true | _ ↦ false ]
