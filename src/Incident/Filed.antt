-- ===== src/Incident/Filed.antt =====
-- internal/incident/incident.go: an alert that is added waits afterwards, and no other is lost.
use nodux.Base.{
  ℕ, suc, ◌+◌, ◌≡◌, refl, ap, ◌∙◌, Bool, ◌&&◌, true, false, not, String, List, [], ◌∷◌, ◌++◌,
  Option, none, some, arith, nat_eq, string_eq, ◌==◌, is_empty, count, any, Option-cases, if_rule,
  inl, inr, ◌⊎◌, if◌then◌else◌,
}
use nodux.Detector.Types.{Issue}
use nodux.Incident.{
  Batch, Grouper, Incident, enqueue, find, first_with, modify, expire, choose, attach, fresh, add,
  add_firing, add_resolved, set_summary, with_id, better, matches, alone, add_resolved_at,
  add_firing_at,
}
use nodux.Incident.Valid.{IsValid}
use nodux.Incident.Counts.{
  held, one, count_batches, count_pending, count_batches-append, count_pending-cons,
  count_batches-cons, count_pending-append, count-held, count-singleton, count_pending-modify,
  count-enqueue, count-attach, count_pending-alive, count_nil,
}

-- A kind of alert that does not look at the incident's number.
abbrev pub IgnoresId : (Issue → Bool) → Type 0
IgnoresId p = (n : ℕ) (issue : Issue) → p (with_id n issue) ≡ p issue

has_id-first_with :
    (id : ℕ) (incs : List Incident) (inc : Incident)
    → first_with id incs ≡ some inc
    → any (λ i. i.id == inc.id) incs ≡ true
unfolding first_with any
has_id-first_with id [] inc h = cc
has_id-first_with id (x ∷ xs) inc h = ground (arith, has_id-first_with id xs inc)

has_id-find :
    (id : ℕ) (incs : List Incident) (inc : Incident)
    → find id incs ≡ some inc
    → any (λ i. i.id == inc.id) incs ≡ true
unfolding find
has_id-find id incs inc h = ground (arith, has_id-first_with id incs inc)

has_id-choose :
    (subjects : List String) (is_host : Bool) (best : Option Incident) (incs : List Incident)
    (inc : Incident)
    → choose subjects is_host best incs ≡ some inc
    → (best ≡ some inc) ⊎ (any (λ i. i.id == inc.id) incs ≡ true)
unfolding choose any
has_id-choose subjects is_host best [] inc h = inl h
has_id-choose subjects is_host best (x ∷ xs) inc h =
    elim (has_id-choose subjects is_host
      (if better best x && matches x subjects is_host then some x else best) xs inc h) [
        | inl e ↦ ground arith
        | inr e ↦ inr (ground arith)
      ]

module _ (p : Issue → Bool) where
  -- The alert's own batch.
  count-alone :
      (bs : List Batch) (b : Batch) (issue : Issue)
      → b.alerts ≡ issue ∷ []
      → count_batches p (bs ++ b ∷ []) ≡ count_batches p bs + one (p issue)
  count-alone bs b issue e = omega (
    arith,
    count_batches-append p bs (b ∷ []),
    count_batches-cons p b [],
    ap (count p) e,
    count-singleton p issue,
    no_batches,
  )
    where
      no_batches : count_batches p [] ≡ 0
      no_batches = unfold count_batches count in refl

  add_resolved_at-conserves :
      (id : ℕ) (o : Option Incident) (now : ℕ) (issue : Issue) (g : Grouper)
      → IgnoresId p
      → find id g.opened ≡ o
      → count p (held (add_resolved_at id o now issue g)) ≡ count p (held g) + one (p issue)
  unfolding add_resolved_at
  add_resolved_at-conserves id none now issue g same e = omega (
    arith,
    count-held p g,
    count-held p (add_resolved_at id none now issue g),
    ap one (same id issue),
    count-alone g.ready (alone id (with_id id issue)) _ refl,
  )
  add_resolved_at-conserves id (some inc) now issue g same e = omega (
    arith,
    count-held p g,
    count-held p (add_resolved_at id (some inc) now issue g),
    ap one (same id issue),
    count_pending-modify p (one (p (with_id id issue))) inc.id
        (enqueue g.cfg now (with_id id issue)) g.opened
        (count-enqueue p g.cfg now (with_id id issue)) (has_id-find id g.opened inc e),
  )

  add_firing_at-conserves :
      (o : Option Incident) (subjects : List String) (is_host : Bool) (now : ℕ) (issue : Issue)
      (g : Grouper)
      → IgnoresId p
      → choose subjects is_host none g.opened ≡ o
      → count p (held (add_firing_at o subjects is_host now issue g))
        ≡ count p (held g) + one (p issue)
  unfolding add_firing_at
  add_firing_at-conserves none subjects is_host now issue g same e =
      let id = suc g.next_id in
      let inc = attach g.cfg now subjects is_host (with_id id issue) (fresh id) in
      omega (
        arith,
        count-held p g,
        count-held p (add_firing_at none subjects is_host now issue g),
        ap one (same id issue),
        count_pending-append p g.opened (inc ∷ []),
        count_pending-cons p inc [],
        count-attach p g.cfg now subjects is_host (with_id id issue) (fresh id),
        count_nil p,
        no_pending,
      )
    where
      no_pending : count_pending p [] ≡ 0
      no_pending = unfold count_pending count in refl
  add_firing_at-conserves (some inc) subjects is_host now issue g same e = omega (
    arith,
    count-held p g,
    count-held p (add_firing_at (some inc) subjects is_host now issue g),
    ap one (same inc.id issue),
    count_pending-modify p (one (p (with_id inc.id issue))) inc.id
        (attach g.cfg now subjects is_host (with_id inc.id issue)) g.opened
        (count-attach p g.cfg now subjects is_host (with_id inc.id issue))
        (chosen (has_id-choose subjects is_host none g.opened inc e)),
  )
    where
      chosen :
          (none ≡ some inc) ⊎ (any (λ i. i.id == inc.id) g.opened ≡ true)
          → any (λ i. i.id == inc.id) g.opened ≡ true
      chosen h = ground arith

  expire-conserves :
      (now : ℕ) (g : Grouper) → IsValid g → count p (held (expire now g)) ≡ count p (held g)
  unfolding expire
  expire-conserves now g v = omega (
    arith,
    count-held p g,
    count-held p (expire now g),
    count_pending-alive p g.cfg now g.opened v.each,
  )

  pub add-conserves :
      (now : ℕ) (issue : Issue) (g : Grouper)
      → IgnoresId p
      → IsValid g
      → count p (held (add now issue g)) ≡ count p (held g) + one (p issue)
  unfolding add add_resolved add_firing
  add-conserves now issue g same v =
      if_rule Grows (not g.cfg.enabled) (λ off. alone_grows)
        λ on.
          if_rule Grows issue.resolved
            (λ r.
              add_resolved_at-conserves _ _ now issue (expire now g) same refl
              ∙ ap (λ n. n + one (p issue)) (expire-conserves now g v))
            (λ f.
              add_firing_at-conserves _ _ _ now issue (expire now g) same refl
              ∙ ap (λ n. n + one (p issue)) (expire-conserves now g v))
    where
      Grows : Grouper → Type 0
      Grows g' = count p (held g') ≡ count p (held g) + one (p issue)

      alone_grows :
          Grows (record g { ready = g.ready ++ record (alone 0 issue) { update = false } ∷ [] })
      alone_grows = omega (
        arith,
        count-held p g,
        count-held p
            (record g { ready = g.ready ++ record (alone 0 issue) { update = false } ∷ [] }),
        count-alone g.ready (record (alone 0 issue) { update = false }) issue refl,
      )

  pub set_summary-conserves :
      (id : ℕ) (summary : String) (g : Grouper)
      → count p (held (set_summary id summary g)) ≡ count p (held g)
  unfolding set_summary
  set_summary-conserves id summary g = elim (Option-cases (find id g.opened)) [
    | inl e ↦ rw (e, set_summary)
    | inr (inc, e) ↦
        rw (e, set_summary)
          (if_rule (λ g'. count p (held g') ≡ count p (held g)) (is_empty summary) (λ b. refl)
            λ b. omega (
              arith,
              count-held p g,
              count-held p (record g {
                opened = modify inc.id (λ i. record i { summary = summary }) g.opened;
              }),
              count_pending-modify p 0 inc.id (λ i. record i { summary = summary }) g.opened
                  (λ i. omega arith) (has_id-find id g.opened inc e),
            ))
  ]
