-- ===== src/Sort.antt =====
-- `sort.Slice` of Go's standard library, as an insertion sort by the test that the call passes.
-- Go leaves open the order of elements that the test does not tell apart.
use nodux.Base.{
  ℕ, ◌+◌, ◌≡◌, refl, ap, ◌∙◌, Bool, false, none, some, List, [], ◌∷◌, map, arith, HasEq, ◌==◌,
  if◌then◌else◌, All,
}
use nodux.Dict.{lookup, Distinct}

abbrev pub total {ℓ} : {A : Type ℓ} → (A → ℕ) → List A → ℕ
total f [] = 0
total f (x ∷ xs) = f x + total f xs

module _ {ℓ} {A : Type ℓ} (less : A → A → Bool) where
  unfoldable pub insert_by : A → List A → List A
  insert_by x [] = x ∷ []
  insert_by x (y ∷ ys) = if less y x then y ∷ insert_by x ys else x ∷ y ∷ ys

  unfoldable pub sort_by : List A → List A
  unfolding insert_by
  sort_by [] = []
  sort_by (x ∷ xs) = insert_by x (sort_by xs)

module _ {ℓ} {A : Type ℓ} (less : A → A → Bool) where
  total-insert_by :
      (f : A → ℕ) (x : A) (xs : List A) → total f (insert_by less x xs) ≡ f x + total f xs
  unfolding insert_by
  total-insert_by f x [] = refl
  total-insert_by f x (y ∷ ys) = ground (arith, total-insert_by f x ys)

  pub total-sort_by : (f : A → ℕ) (xs : List A) → total f (sort_by less xs) ≡ total f xs
  unfolding sort_by
  total-sort_by f [] = refl
  total-sort_by f (x ∷ xs) =
      omega (arith, total-insert_by f x (sort_by less xs), total-sort_by f xs)

  All-insert_by {κ} :
      (P : A → Type κ) (x : A) (xs : List A) → P x → All P xs → All P (insert_by less x xs)
  unfolding insert_by
  All-insert_by P x [] h hs = (h, tt)
  All-insert_by P x (y ∷ ys) h hs = ground (arith, All-insert_by P x ys h hs.1)

  pub All-sort_by {κ} : (P : A → Type κ) (xs : List A) → All P xs → All P (sort_by less xs)
  unfolding sort_by
  All-sort_by P [] h = tt
  All-sort_by P (x ∷ xs) h = All-insert_by P x (sort_by less xs) h.0 (All-sort_by P xs h.1)

  -- No element is strictly before the one that it follows.
  abbrev pub Ordered : List A → Type 0
  Ordered [] = Unit
  Ordered (x ∷ xs) = All (λ y. less y x ≡ false) xs × Ordered xs

-- The elements as the entries of a map: sorting them does not change it.
module _ {ℓ κ μ} {A : Type ℓ} {K : Type κ} {V : Type μ} ⦃e : HasEq K⦄ (less : A → A → Bool)
    (entry : A → K × V) where
  lookup-insert_by :
      (k : K) (x : A) (xs : List A)
      → lookup (entry x).0 (map entry xs) ≡ none
      → lookup k (map entry (insert_by less x xs)) ≡ lookup k (map entry (x ∷ xs))
  unfolding insert_by lookup
  lookup-insert_by k x [] h = refl
  lookup-insert_by k x (y ∷ ys) h = ground (
    arith,
    lookup-insert_by k x ys,
    e.test_iff (entry x).0 k,
    e.test_iff (entry y).0 k,
    e.test_iff (entry y).0 (entry x).0,
  )

  Distinct-insert_by :
      (x : A) (xs : List A)
      → lookup (entry x).0 (map entry xs) ≡ none
      → Distinct (map entry xs)
      → Distinct (map entry (insert_by less x xs))
  unfolding insert_by lookup
  Distinct-insert_by x [] h d = (refl, tt)
  Distinct-insert_by x (y ∷ ys) h d = ground (
    arith,
    Distinct-insert_by x ys,
    lookup-insert_by (entry y).0 x ys,
    e.test_iff (entry x).0 (entry y).0,
    e.test_iff (entry y).0 (entry x).0,
    d.0,
  )

  sorted_entries :
      (xs : List A)
      → Distinct (map entry xs)
      → ((k : K) → lookup k (map entry (sort_by less xs)) ≡ lookup k (map entry xs))
        × Distinct (map entry (sort_by less xs))
  unfolding sort_by lookup
  sorted_entries [] d = (λ k. refl, tt)
  sorted_entries (x ∷ xs) d =
      let (same, rest) = sorted_entries xs d.1 in
      (
        λ k.
            lookup-insert_by k x (sort_by less xs) (same (entry x).0 ∙ d.0)
            ∙ ap (λ o. if (entry x).0 == k then some (entry x).1 else o) (same k),
        Distinct-insert_by x (sort_by less xs) (same (entry x).0 ∙ d.0) rest,
      )

  pub lookup-sort_by :
      (k : K) (xs : List A)
      → Distinct (map entry xs)
      → lookup k (map entry (sort_by less xs)) ≡ lookup k (map entry xs)
  lookup-sort_by k xs d = (sorted_entries xs d).0 k

  pub Distinct-sort_by :
      (xs : List A) → Distinct (map entry xs) → Distinct (map entry (sort_by less xs))
  Distinct-sort_by xs d = (sorted_entries xs d).1
