-- ===== src/Incident/Wake.antt =====
-- internal/incident/incident.go: the time at which the dispatcher wakes up for the next batch.
use nodux.Base.{
  ℕ, ◌≤◌, ◌<◌, ◌≡◌, refl, sym, ◌∙◌, Bool, true, false, not, ◌&&◌, ◌||◌, List, [], ◌∷◌, map, arith,
  nat_eq, is_zero, leb, select, any,
}
use nodux.Sort.{sort_by, insert_by}
use nodux.Incident.{
  Batch, Grouper, Incident, batch_of, due_before, taken, take, due, next, next_due, sooner,
}

-- A time that is set and has come.
abbrev pub passed : ℕ → ℕ → Bool
passed t due = not (is_zero due) && leb due t

abbrev pub non_empty {ℓ} : {A : Type ℓ} → List A → Bool
non_empty [] = false
non_empty (x ∷ xs) = true

passed-sooner :
    (t n : ℕ) (inc : Incident) → passed t (sooner n inc) ≡ (passed t n || passed t inc.due)
passed-sooner t n inc = ground arith

passed-next_due :
    (t n : ℕ) (incs : List Incident)
    → passed t (next_due n incs) ≡ (passed t n || any (λ inc. passed t inc.due) incs)
unfolding next_due any
passed-next_due t n [] = ground arith
passed-next_due t n (inc ∷ incs) =
    ground (arith, passed-next_due t (sooner n inc) incs, passed-sooner t n inc)

non_empty-select :
    (p : Incident → Bool) (incs : List Incident) → non_empty (select p incs) ≡ any p incs
unfolding select any
non_empty-select p [] = refl
non_empty-select p (inc ∷ incs) = ground (arith, non_empty-select p incs)

non_empty-sort :
    (incs : List Incident) → non_empty (map batch_of (sort_by due_before incs)) ≡ non_empty incs
unfolding sort_by
non_empty-sort [] = refl
non_empty-sort (inc ∷ incs) = inserted (sort_by due_before incs)
  where
    inserted : (xs : List Incident) → non_empty (map batch_of (insert_by due_before inc xs)) ≡ true
    inserted [] = unfold insert_by in refl
    inserted (x ∷ xs) = unfold insert_by in ground arith

-- `Next` neither oversleeps nor wakes the dispatcher for nothing: at any time from the reading of
-- the clock on (which stands after Go's zero time), `Due` has a batch to send exactly when the time
-- that `Next` returned is set and has come.
pub due-next :
    (g : Grouper) (now t : ℕ) → 0 < now → now ≤ t → non_empty (due t g).0 ≡ passed t (next now g)
unfolding due next
due-next g now t h k = by_ready g.ready refl
  where
    by_ready : (r : List Batch) → g.ready ≡ r → non_empty (due t g).0 ≡ passed t (next now g)
    by_ready [] e =
        rw (e, take)
          (non_empty-sort (select (taken (λ inc. leb inc.due t)) g.opened)
            ∙ non_empty-select (taken (λ inc. leb inc.due t)) g.opened
            ∙ sym (passed-next_due t 0 g.opened))
    by_ready (b ∷ bs) e = rw (e, take) (ground arith)
