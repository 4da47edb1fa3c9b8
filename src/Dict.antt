-- ===== src/Dict.antt =====
-- Go's maps as association lists. A `range` over a map meets each key once, in an order that the
-- language leaves open: here the order of the list.
use nodux.Base.{
  ◌≡◌, refl, Bool, Option, none, some, List, [], ◌∷◌, arith, HasEq, ◌==◌, ==_refl, if◌then◌else◌,
}

abbrev pub Dict {ℓ κ} : Type ℓ → Type κ → Type (ℓ ⊔ κ)
Dict K V = List (K × V)

module _ {ℓ κ} {K : Type ℓ} {V : Type κ} ⦃e : HasEq K⦄ where
  unfoldable pub lookup : K → Dict K V → Option V
  lookup key [] = none
  lookup key ((i, v) ∷ rest) = if i == key then some v else lookup key rest

  -- `delete(m, key)`.
  unfoldable pub delete : K → Dict K V → Dict K V
  delete key [] = []
  delete key ((i, v) ∷ rest) = if i == key then delete key rest else (i, v) ∷ delete key rest

  -- `m[key] = new`.
  unfoldable pub insert : K → V → Dict K V → Dict K V
  insert key new [] = (key, new) ∷ []
  insert key new ((i, v) ∷ rest) =
      if i == key then (i, new) ∷ rest else (i, v) ∷ insert key new rest

  -- The loop that deletes the entries which fail a test.
  unfoldable pub retain : (K → V → Bool) → Dict K V → Dict K V
  retain p [] = []
  retain p ((j, w) ∷ m) = if p j w then (j, w) ∷ retain p m else retain p m

  -- The loop that writes every entry of one map into another.
  unfoldable pub overlay : Dict K V → Dict K V → Dict K V
  overlay [] m = m
  overlay ((j, w) ∷ s) m = overlay s (insert j w m)

  -- A map has each key once.
  abbrev pub Distinct : Dict K V → Type κ
  Distinct [] = Unit
  Distinct ((j, w) ∷ m) = (lookup j m ≡ none) × Distinct m

-- What a loop of deletions leaves under a key.
abbrev pub kept {ℓ κ} : {K : Type ℓ} {V : Type κ} → (K → V → Bool) → K → Option V → Option V
kept p k none = none
kept p k (some v) = if p k v then some v else none

-- The entries of the first map win.
abbrev pub over {κ} : {V : Type κ} → Option V → Option V → Option V
over (some v) o = some v
over none o = o

module _ {ℓ κ} {K : Type ℓ} {V : Type κ} ⦃e : HasEq K⦄ where
  pub lookup-insert :
      (key asked : K) (new : V) (m : Dict K V)
      → lookup asked (insert key new m) ≡ (if key == asked then some new else lookup asked m)
  unfolding insert lookup
  lookup-insert key asked new [] = ground arith
  lookup-insert key asked new ((i, v) ∷ rest) = ground (
    arith,
    lookup-insert key asked new rest,
    e.test_iff i key,
    e.test_iff i asked,
    e.test_iff key asked,
  )

  pub lookup-delete :
      (k j : K) (m : Dict K V) → lookup j (delete k m) ≡ (if k == j then none else lookup j m)
  unfolding lookup delete
  lookup-delete k j [] = ground arith
  lookup-delete k j ((i, w) ∷ m) =
      ground (arith, e.test_iff k j, e.test_iff i k, e.test_iff i j, lookup-delete k j m)

  pub lookup-insert_self : (k : K) (v : V) (m : Dict K V) → lookup k (insert k v m) ≡ some v
  lookup-insert_self k v m = rw (lookup-insert k k v m, ==_refl k)

  pub lookup-delete_self : (k : K) (m : Dict K V) → lookup k (delete k m) ≡ none
  lookup-delete_self k m = rw (lookup-delete k k m, ==_refl k)

  pub lookup-retain-none :
      (p : K → V → Bool) (k : K) (m : Dict K V) → lookup k m ≡ none → lookup k (retain p m) ≡ none
  unfolding lookup retain
  lookup-retain-none p k [] h = refl
  lookup-retain-none p k ((i, w) ∷ m) h = ground (arith, lookup-retain-none p k m)

  pub lookup-retain :
      (p : K → V → Bool) (k : K) (m : Dict K V)
      → Distinct m
      → lookup k (retain p m) ≡ kept p k (lookup k m)
  unfolding lookup retain
  lookup-retain p k [] d = refl
  lookup-retain p k ((i, w) ∷ m) d =
      ground (arith, e.test_iff i k, lookup-retain p k m d.1, lookup-retain-none p i m)

  pub Distinct-insert : (k : K) (v : V) (m : Dict K V) → Distinct m → Distinct (insert k v m)
  unfolding insert lookup
  Distinct-insert k v [] d = (refl, tt)
  Distinct-insert k v ((i, w) ∷ m) d =
      ground
        (arith, e.test_iff i k, e.test_iff k i, lookup-insert k i v m, Distinct-insert k v m d.1)

  pub Distinct-delete : (k : K) (m : Dict K V) → Distinct m → Distinct (delete k m)
  unfolding delete lookup
  Distinct-delete k [] d = tt
  Distinct-delete k ((i, w) ∷ m) d =
      ground (arith, e.test_iff k i, e.test_iff i k, lookup-delete k i m, Distinct-delete k m d.1)

  pub Distinct-retain : (p : K → V → Bool) (m : Dict K V) → Distinct m → Distinct (retain p m)
  unfolding retain lookup
  Distinct-retain p [] d = tt
  Distinct-retain p ((i, w) ∷ m) d =
      ground (arith, lookup-retain-none p i m, Distinct-retain p m d.1)

  pub lookup-overlay :
      (k : K) (s m : Dict K V)
      → Distinct s
      → lookup k (overlay s m) ≡ over (lookup k s) (lookup k m)
  unfolding overlay lookup
  lookup-overlay k [] m d = refl
  lookup-overlay k ((i, w) ∷ s) m d =
      ground (arith, e.test_iff i k, lookup-overlay k s (insert i w m) d.1, lookup-insert i k w m)

  pub Distinct-overlay : (s m : Dict K V) → Distinct m → Distinct (overlay s m)
  unfolding overlay
  Distinct-overlay [] m d = d
  Distinct-overlay ((i, w) ∷ s) m d = Distinct-overlay s (insert i w m) (Distinct-insert i w m d)
