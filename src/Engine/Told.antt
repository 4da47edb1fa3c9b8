-- ===== src/Engine/Told.antt =====
-- internal/engine/engine.go: what receivers are told about one episode, over any calls.
use nodux.Base.{
  ◌≡◌, subst, sym, ◌∙◌, ap, Bool, true, false, not, ◌&&◌, String, List, [], ◌∷◌, Option, none, some,
  string_eq, ◌==◌, if◌then◌else◌, inl, inr, Bool-cases, arith,
}
use mathlib.Core.Option.{some-injective}
use nodux.Dict.{lookup, insert, delete, lookup-insert, lookup-delete}
use nodux.Detector.Types.{Issue}
use nodux.Engine.{Engine, ActiveAlert}

-- Whether receivers were told of the open problem under a key, as the episodes have it.
abbrev pub told_of : Option ActiveAlert → Bool
told_of none = false
told_of (some a) = a.notified

abbrev pub told : String → Engine → Bool
told key e = told_of (lookup key e.active)

-- What a receiver knows after an alert: silenced alerts do not reach it.
abbrev pub hears : String → Bool → Issue → Bool
hears key b i = if i.key == key && not i.silenced then not i.resolved else b

-- An audible resolution comes to a receiver that was told of the problem.
abbrev pub IsProper : String → Bool → Issue → Type 0
IsProper key b i = i.key ≡ key → i.silenced ≡ false → i.resolved ≡ true → b ≡ true

abbrev pub hears_all : String → Bool → List Issue → Bool
hears_all key b [] = b
hears_all key b (i ∷ is) = hears_all key (hears key b i) is

abbrev pub AllProper : String → Bool → List Issue → Type 0
AllProper key b [] = Unit
AllProper key b (i ∷ is) = IsProper key b i × AllProper key (hears key b i) is

-- An episode is stored under its issue's key, as a firing alert that is not silenced.
abbrev pub IsKeyed : Engine → Type 0
IsKeyed e =
    (key : String) (a : ActiveAlert)
    → lookup key e.active ≡ some a
    → (a.issue.key ≡ key) × (a.issue.resolved ≡ false) × (a.issue.silenced ≡ false)

-- What one round sends, if anything, brings a receiver's knowledge in line with the episodes.
abbrev pub Agrees : String → Engine → Option Issue × Engine → Type 0
Agrees key e (none, e') = told key e' ≡ told key e
Agrees key e (some i, e') = IsProper key (told key e) i × (told key e' ≡ hears key (told key e) i)

-- A round that agrees at every key and keeps the episodes well formed.
pub record IsRound (e : Engine) (r : Option Issue × Engine) : Type 0 where
  pub agrees : (key : String) → Agrees key e r
  pub keyed : IsKeyed r.1

-- The alert of an episode, stored under its key.
pub fires-IsRound :
    (e e' : Engine) (k : String) (a : ActiveAlert) (i : Issue)
    → e'.active ≡ insert k a e.active
    → (i.key ≡ k) × (i.resolved ≡ false)
    → (a.issue.key ≡ k) × (a.issue.resolved ≡ false) × (a.issue.silenced ≡ false)
    → a.notified ≡ (if i.silenced then told k e else true)
    → IsKeyed e
    → IsRound e (some i, e')
fires-IsRound e e' k a i s hi ha n v = record {
  agrees = λ key. (
    λ _ _ r. absurd (ground arith),
    ap (λ m. told_of (lookup key m)) s
        ∙ ap told_of (lookup-insert k key a e.active)
        ∙ ground (arith, string_eq.test_iff k key, string_eq.test_iff i.key key),
  );
  keyed = λ key b q. elim (Bool-cases (k == key)) [
    | inl y ↦
        let same : k ≡ key = (string_eq.test_iff k key).0 y in
        let this : a ≡ b =
          some-injective a b (ground (arith, ap (lookup key) s, lookup-insert k key a e.active)) in
        subst (λ x. (x.issue.key ≡ key) × (x.issue.resolved ≡ false) × (x.issue.silenced ≡ false))
          this (ha.0 ∙ same, ha.1, ha.2)
    | inr w ↦ v key b (ground (arith, ap (lookup key) s, lookup-insert k key a e.active))
  ];
}

-- The resolution of an episode, which is gone.
pub ends-IsRound :
    (e e' : Engine) (k : String) (i : Issue)
    → e'.active ≡ delete k e.active
    → (i.key ≡ k) × (i.resolved ≡ true) × (i.silenced ≡ not (told k e))
    → IsKeyed e
    → IsRound e (some i, e')
ends-IsRound e e' k i s h v = record {
  agrees = λ key. (
    λ same loud r. ground (arith, ap (λ x. told x e) (sym same ∙ h.0)),
    ap (λ m. told_of (lookup key m)) s
        ∙ ap told_of (lookup-delete k key e.active)
        ∙ ground (arith, string_eq.test_iff k key, string_eq.test_iff i.key key),
  );
  keyed = λ key b q. v key b (ground (arith, ap (lookup key) s, lookup-delete k key e.active));
}

-- Nothing is sent, and no episode changes.
pub quiet-IsRound : (e e' : Engine) → e'.active ≡ e.active → IsKeyed e → IsRound e (none, e')
quiet-IsRound e e' s v = record {
  agrees = λ key. ap (λ m. told_of (lookup key m)) s;
  keyed = λ key b q. v key b (ap (lookup key) (sym s) ∙ q);
}
