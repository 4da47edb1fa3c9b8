-- ===== src/Incident/Counts.antt =====
-- internal/incident/incident.go: the alerts that the grouper holds, counted by kind.
use nodux.Base.{
  ℕ, append_assoc, ◌+◌, ◌≡◌, refl, ap, ◌∙◌, sym, Bool, true, false, String, List, [], ◌∷◌, ◌++◌,
  map, arith, nat_eq, string_eq, ◌==◌, is_zero, select, All, count, count-append, any, Bool-cases,
  inl, inr, if◌then◌else◌,
}
use nodux.Detector.Types.{Issue}
use nodux.Sort.{sort_by, total, total-sort_by}
use nodux.Incident.{
  Batch, Grouper, Incident, Config, enqueue, modify, alive, attach, take, taken, delivered, due,
  batch_of, due_before,
}
use nodux.Incident.Entry.{IncidentOk}

abbrev pub batch_alerts : List Batch → List Issue
batch_alerts [] = []
batch_alerts (b ∷ bs) = b.alerts ++ batch_alerts bs

abbrev pub pending_alerts : List Incident → List Issue
pending_alerts [] = []
pending_alerts (inc ∷ incs) = inc.pending ++ pending_alerts incs

-- The alerts that wait to be sent.
abbrev pub held : Grouper → List Issue
held g = batch_alerts g.ready ++ pending_alerts g.opened

abbrev pub one : Bool → ℕ
one b = if b then 1 else 0

pub batch_alerts-append :
    (xs ys : List Batch) → batch_alerts (xs ++ ys) ≡ batch_alerts xs ++ batch_alerts ys
batch_alerts-append [] ys = refl
batch_alerts-append (x ∷ xs) ys = rw (batch_alerts-append xs ys) (sym (append_assoc x.alerts _ _))

-- A kind of alert is a test that does not look at the incident's number.
module _ (p : Issue → Bool) where
  unfoldable pub count_batches : List Batch → ℕ
  count_batches bs = count p (batch_alerts bs)

  unfoldable pub count_pending : List Incident → ℕ
  count_pending incs = count p (pending_alerts incs)

  pub count_batches-append :
      (xs ys : List Batch) → count_batches (xs ++ ys) ≡ count_batches xs + count_batches ys
  unfolding count_batches
  count_batches-append xs ys = rw (batch_alerts-append xs ys) (count-append p _ _)

  pub count_pending-cons :
      (inc : Incident) (incs : List Incident)
      → count_pending (inc ∷ incs) ≡ count p inc.pending + count_pending incs
  unfolding count_pending
  count_pending-cons inc incs = count-append p inc.pending _

  pub count_batches-cons :
      (b : Batch) (bs : List Batch) → count_batches (b ∷ bs) ≡ count p b.alerts + count_batches bs
  unfolding count_batches
  count_batches-cons b bs = count-append p b.alerts _

  pub count_pending-append :
      (xs ys : List Incident) → count_pending (xs ++ ys) ≡ count_pending xs + count_pending ys
  count_pending-append [] ys = unfold count_pending in unfold count in omega arith
  count_pending-append (x ∷ xs) ys =
      omega (
        arith,
        count_pending-append xs ys,
        count_pending-cons x xs,
        count_pending-cons x (xs ++ ys),
      )

  pub count-held : (g : Grouper) → count p (held g) ≡ count_batches g.ready + count_pending g.opened
  unfolding count_batches count_pending
  count-held g = count-append p (batch_alerts g.ready) _

  pub count-singleton : (i : Issue) → count p (i ∷ []) ≡ one (p i)
  unfolding count
  count-singleton i = ground arith

  -- One more alert in an incident of the list is one more alert that waits.
  pub count_pending-modify :
      (n id : ℕ) (f : Incident → Incident) (incs : List Incident)
      → ((inc : Incident) → count p (f inc).pending ≡ count p inc.pending + n)
      → any (λ i. i.id == id) incs ≡ true
      → count_pending (modify id f incs) ≡ count_pending incs + n
  unfolding modify any
  count_pending-modify n id f [] k h = cc
  count_pending-modify n id f (x ∷ xs) k h = ground (
    arith,
    k x,
    count_pending-cons (f x) xs,
    count_pending-cons x xs,
    count_pending-cons x (modify id f xs),
    count_pending-modify n id f xs k,
  )

  pub count-enqueue :
      (cfg : Config) (now : ℕ) (issue : Issue) (inc : Incident)
      → count p (enqueue cfg now issue inc).pending ≡ count p inc.pending + one (p issue)
  unfolding enqueue
  count-enqueue cfg now issue inc =
      omega (arith, count-append p inc.pending (issue ∷ []), count-singleton issue)

  pub count-attach :
      (cfg : Config) (now : ℕ) (subjects : List String) (is_host : Bool) (issue : Issue)
      (inc : Incident)
      → count p (attach cfg now subjects is_host issue inc).pending
        ≡ count p inc.pending + one (p issue)
  unfolding attach enqueue
  count-attach cfg now subjects is_host issue inc =
      omega (arith, count-append p inc.pending (issue ∷ []), count-singleton issue)

  -- What `expire` drops has nothing to send.
  pub count_pending-alive :
      (cfg : Config) (now : ℕ) (incs : List Incident)
      → All IncidentOk incs
      → count_pending (select (alive cfg now) incs) ≡ count_pending incs
  unfolding select
  count_pending-alive cfg now [] h = refl
  count_pending-alive cfg now (x ∷ xs) h = elim (Bool-cases (alive cfg now x)) [
    | inl e ↦
        rw (e, select)
          (omega (
            arith,
            count_pending-alive cfg now xs h.1,
            count_pending-cons x xs,
            count_pending-cons x (select (alive cfg now) xs),
          ))
    | inr e ↦
        rw (e, select)
          (omega (
            arith,
            count_pending-alive cfg now xs h.1,
            count_pending-cons x xs,
            ap (count p) (h.0.idle (idle_of x e)),
            count_nil,
          ))
  ]
    where
      idle_of : (x : Incident) → alive cfg now x ≡ false → is_zero x.due ≡ true
      idle_of x e = ground arith

      count_nil : count p [] ≡ 0
      count_nil = unfold count in refl

  count_pending-total :
      (incs : List Incident) → count_pending incs ≡ total (λ inc. count p inc.pending) incs
  count_pending-total [] = unfold count_pending count in refl
  count_pending-total (x ∷ xs) = omega (arith, count_pending-cons x xs, count_pending-total xs)

  pub count_pending-sort :
      (incs : List Incident) → count_pending (sort_by due_before incs) ≡ count_pending incs
  count_pending-sort incs =
      count_pending-total (sort_by due_before incs)
      ∙ total-sort_by due_before (λ inc. count p inc.pending) incs
      ∙ sym (count_pending-total incs)

  pub count_batches-map :
      (incs : List Incident) → count_batches (map batch_of incs) ≡ count_pending incs
  unfolding batch_of
  count_batches-map [] = unfold count_batches count_pending in refl
  count_batches-map (x ∷ xs) = omega (
    arith,
    count_batches-map xs,
    count_pending-cons x xs,
    count_batches-cons (batch_of x) (map batch_of xs),
  )

  pub count_nil : count p [] ≡ 0
  unfolding count
  count_nil = refl

  -- What a take sends and what it leaves are what was there.
  pub count_pending-taken :
      (due : Incident → Bool) (incs : List Incident)
      → count_pending (select (taken due) incs)
          + count_pending (map (λ inc. if taken due inc then delivered inc else inc) incs)
        ≡ count_pending incs
  unfolding select
  count_pending-taken due [] = unfold count_pending in unfold count in refl
  count_pending-taken due (x ∷ xs) = elim (Bool-cases (taken due x)) [
    | inl e ↦
        rw (e, select)
          (omega (
            arith,
            count_pending-taken due xs,
            count_pending-cons x xs,
            count_pending-cons x (select (taken due) xs),
            rest (delivered x),
            empties,
            count_nil,
          ))
    | inr e ↦
        rw (e, select) (omega (arith, count_pending-taken due xs, count_pending-cons x xs, rest x))
  ]
    where
      rest :
          (y : Incident)
          → count_pending (y ∷ map (λ inc. if taken due inc then delivered inc else inc) xs)
            ≡ count p y.pending
              + count_pending (map (λ inc. if taken due inc then delivered inc else inc) xs)
      rest y = count_pending-cons y _

      empties : count p (delivered x).pending ≡ count p []
      empties = unfold delivered in refl

  pub take-conserves :
      (due : Incident → Bool) (g : Grouper)
      → count p (batch_alerts (take due g).0) + count p (held (take due g).1) ≡ count p (held g)
  unfolding take count_batches count_pending
  take-conserves due g = omega (
    arith,
    count_nil,
    count-held g,
    count-held (take due g).1,
    count_batches-append g.ready (map batch_of (sort_by due_before (select (taken due) g.opened))),
    count_batches-map (sort_by due_before (select (taken due) g.opened)),
    count_pending-sort (select (taken due) g.opened),
    count_pending-taken due g.opened,
  )
