-- ===== src/Engine/Resolved.antt =====
-- internal/engine/engine.go, resolveContainer: the episodes that it leaves.
use nodux.Base.{
  ℕ, ◌≡◌, refl, ap, ◌∙◌, Bool, false, not, ◌&&◌, String, List, [], ◌∷◌, Option, none, some,
  string_eq, ◌==◌, arith, any, is_some, Option-cases, inl, inr,
}
use nodux.Dict.{lookup, lookup-delete}
use nodux.Engine.{Engine, ActiveAlert}
use nodux.Engine.Track.{resolve_one, resolve_container, for_each, keys}
use nodux.Engine.Sets.{any-keys}

-- An open episode of a container.
abbrev pub owned_by : String → Option ActiveAlert → Bool
owned_by id none = false
owned_by id (some a) = a.container_id == id

abbrev pub belongs : String → String → Engine → Bool
belongs id key e = owned_by id (lookup key e.active)

resolve_one-belongs :
    (now : ℕ) (id k key : String) (e : Engine)
    → belongs id key (resolve_one now id k e).1 ≡ (not (k == key) && belongs id key e)
unfolding resolve_one
resolve_one-belongs now id k key e = elim (Option-cases (lookup k e.active)) [
  | inl n ↦ rw (n, resolve_one) (ground (arith, n, string_eq.test_iff k key))
  | inr (a, h) ↦ ground (arith, h, string_eq.test_iff k key, lookup-delete k key e.active)
]

resolve_all-belongs :
    (now : ℕ) (id key : String) (ks : List String) (e : Engine)
    → belongs id key (for_each (resolve_one now id) ks e).1
      ≡ (not (any (λ k. k == key) ks) && belongs id key e)
unfolding for_each any
resolve_all-belongs now id key [] e = refl
resolve_all-belongs now id key (k ∷ ks) e = ground (
  arith,
  resolve_one-belongs now id k key e,
  resolve_all-belongs now id key ks (resolve_one now id k e).1,
)

owned-is_some : (id : String) (o : Option ActiveAlert) → (not (is_some o) && owned_by id o) ≡ false
owned-is_some id none = refl
owned-is_some id (some a) = refl

-- `resolveContainer` leaves no episode of the container open.
pub resolve_container-belongs :
    (now : ℕ) (id key : String) (e : Engine) → belongs id key (resolve_container now id e).1 ≡ false
unfolding resolve_container
resolve_container-belongs now id key e =
    resolve_all-belongs now id key (keys e.active) e
    ∙ ap (λ b. not b && belongs id key e) (any-keys key e.active)
    ∙ owned-is_some id (lookup key e.active)

resolve_one-keeps :
    (now : ℕ) (id other k key : String) (e : Engine)
    → belongs other key e ≡ false
    → belongs other key (resolve_one now id k e).1 ≡ false
unfolding resolve_one
resolve_one-keeps now id other k key e h = elim (Option-cases (lookup k e.active)) [
  | inl n ↦ rw (n, resolve_one) h
  | inr (a, p) ↦ ground (arith, p, lookup-delete k key e.active)
]

resolve_all-keeps :
    (now : ℕ) (id other key : String) (ks : List String) (e : Engine)
    → belongs other key e ≡ false
    → belongs other key (for_each (resolve_one now id) ks e).1 ≡ false
unfolding for_each
resolve_all-keeps now id other key [] e h = h
resolve_all-keeps now id other key (k ∷ ks) e h =
    resolve_all-keeps now id other key ks (resolve_one now id k e).1
      (resolve_one-keeps now id other k key e h)

-- And opens none of another container.
pub resolve_container-keeps :
    (now : ℕ) (id other key : String) (e : Engine)
    → belongs other key e ≡ false
    → belongs other key (resolve_container now id e).1 ≡ false
unfolding resolve_container
resolve_container-keeps now id other key e = resolve_all-keeps now id other key (keys e.active) e
