-- ===== src/Incident/Ids.antt =====
-- internal/incident/incident.go: the identifiers of the open incidents, in their order.
use nodux.Base.{
  ℕ, suc, ◌≤◌, ◌<◌, ◌≡◌, Bool, List, [], ◌∷◌, ◌++◌, map, arith, nat_eq, select, All, string_eq,
}
use nodux.Incident.{Incident, modify}

-- The identifiers rise along the list, above `lo` and up to `hi`.
abbrev pub Ids : ℕ → ℕ → List Incident → Type 0
Ids lo hi [] = lo ≤ hi
Ids lo hi (inc ∷ rest) = (lo < inc.id) × Ids inc.id hi rest

pub All-modify :
    (P : Incident → Type 0) (id : ℕ) (f : Incident → Incident) (xs : List Incident)
    → ((inc : Incident) → P inc → P (f inc))
    → All P xs
    → All P (modify id f xs)
unfolding modify
All-modify P id f [] k h = tt
All-modify P id f (x ∷ xs) k h = ground (arith, k x h.0, All-modify P id f xs k h.1)

pub All-map :
    (P : Incident → Type 0) (f : Incident → Incident) (xs : List Incident)
    → ((inc : Incident) → P inc → P (f inc))
    → All P xs
    → All P (map f xs)
All-map P f [] k h = tt
All-map P f (x ∷ xs) k h = (k x h.0, All-map P f xs k h.1)

pub Ids-modify :
    (lo hi id : ℕ) (f : Incident → Incident) (xs : List Incident)
    → ((inc : Incident) → (f inc).id ≡ inc.id)
    → Ids lo hi xs
    → Ids lo hi (modify id f xs)
unfolding modify
Ids-modify lo hi id f [] k h = h
Ids-modify lo hi id f (x ∷ xs) k h = ground (arith, k x, Ids-modify x.id hi id f xs k h.1)

pub Ids-map :
    (lo hi : ℕ) (f : Incident → Incident) (xs : List Incident)
    → ((inc : Incident) → (f inc).id ≡ inc.id)
    → Ids lo hi xs
    → Ids lo hi (map f xs)
Ids-map lo hi f [] k h = h
Ids-map lo hi f (x ∷ xs) k h = rw (k x) (h.0, Ids-map x.id hi f xs k h.1)

Ids-weaken : (lo lo' hi : ℕ) (xs : List Incident) → lo ≤ lo' → Ids lo' hi xs → Ids lo hi xs
Ids-weaken lo lo' hi [] le h = omega arith
Ids-weaken lo lo' hi (x ∷ xs) le h = (omega arith, h.1)

pub Ids-raise : (lo hi hi' : ℕ) (xs : List Incident) → hi ≤ hi' → Ids lo hi xs → Ids lo hi' xs
Ids-raise lo hi hi' [] le h = omega arith
Ids-raise lo hi hi' (x ∷ xs) le h = (h.0, Ids-raise x.id hi hi' xs le h.1)

pub Ids-select :
    (lo hi : ℕ) (p : Incident → Bool) (xs : List Incident) → Ids lo hi xs → Ids lo hi (select p xs)
unfolding select
Ids-select lo hi p [] h = h
Ids-select lo hi p (x ∷ xs) h =
    ground (arith, Ids-select x.id hi p xs h.1, Ids-weaken lo x.id hi (select p xs))

pub Ids-append :
    (lo hi : ℕ) (xs : List Incident) (inc : Incident)
    → inc.id ≡ suc hi
    → Ids lo hi xs
    → Ids lo (suc hi) (xs ++ inc ∷ [])
Ids-append lo hi [] inc e h = (omega arith, omega arith)
Ids-append lo hi (x ∷ xs) inc e h = (h.0, Ids-append x.id hi xs inc e h.1)
