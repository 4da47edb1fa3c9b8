-- ===== src/Incident/Conserve.antt =====
-- internal/incident/incident.go: no alert is lost or sent twice on its way through the grouper.
use nodux.Base.{
  ◌+◌, ◌≡◌, refl, ap, Bool, leb, true, List, [], ◌∷◌, ◌++◌, map, arith, nat_eq, string_eq, All,
  count, count-append, if_rule, if◌then◌else◌,
}
use nodux.Detector.Types.{Issue}
use nodux.Incident.{Grouper, Incident, Config, new, take, taken, delivered, due, flush, load_state}
use nodux.Incident.Entry.{IncidentOk}
use nodux.Incident.Valid.{
  IsValid, Op, adds, dues, flushes, summarizes, loads, HasTime, step, run, step-IsValid,
  new-IsValid, run-IsValid,
}
use nodux.Incident.Counts.{
  batch_alerts, held, one, batch_alerts-append, count_batches, count_pending, count_pending-cons,
  count-held, count_nil, take-conserves,
}
use nodux.Incident.Filed.{IgnoresId, add-conserves, set_summary-conserves}

-- The alerts that a list of operations adds.
abbrev pub added : List Op → List Issue
added [] = []
added (adds now issue ∷ ops) = issue ∷ added ops
added (op ∷ ops) = added ops

module _ (p : Issue → Bool) where
  -- One operation: what it sends and what then waits are what waited and what it adds.
  step-conserves :
      (g : Grouper) (op : Op) (ops : List Op)
      → IgnoresId p
      → IsValid g
      → count p (batch_alerts (step g op).0) + count p (held (step g op).1) + count p (added ops)
        ≡ count p (held g) + count p (added (op ∷ ops))
  unfolding step due flush
  step-conserves g (adds now issue) ops same v =
      omega (arith, add-conserves p now issue g same v, count_nil p, count_cons issue (added ops))
    where
      count_cons : (i : Issue) (is : List Issue) → count p (i ∷ is) ≡ one (p i) + count p is
      count_cons i is = unfold count in ground arith
  step-conserves g (dues now) ops same v =
      omega (arith, take-conserves p (λ inc. leb inc.due now) g)
  step-conserves g flushes ops same v = omega (arith, take-conserves p (λ inc. true) g)
  step-conserves g (summarizes id summary) ops same v =
      omega (arith, set_summary-conserves p id summary g, count_nil p)
  step-conserves g (loads s) ops same v =
      unfold load_state in omega (arith, count-held p g, count-held p (load_state s g), count_nil p)

  run-conserves :
      (g : Grouper) (ops : List Op)
      → IgnoresId p
      → All HasTime ops
      → IsValid g
      → count p (batch_alerts (run g ops).0) + count p (held (run g ops).1)
        ≡ count p (held g) + count p (added ops)
  unfolding run
  run-conserves g [] same h v = omega (arith, count_nil p)
  run-conserves g (op ∷ ops) same h v = omega (
    arith,
    step-conserves g op ops same v,
    run-conserves (step g op).1 ops same h.1 (step-IsValid g op h.0 v),
    count_batches_append,
  )
    where
      count_batches_append :
          count p (batch_alerts ((step g op).0 ++ (run (step g op).1 ops).0))
          ≡ count p (batch_alerts (step g op).0) + count p (batch_alerts (run (step g op).1 ops).0)
      count_batches_append =
          rw (batch_alerts-append (step g op).0 (run (step g op).1 ops).0) (count-append p _ _)

  flushed-pending :
      (x : Incident) → IncidentOk x → (if taken (λ i. true) x then delivered x else x).pending ≡ []
  flushed-pending x v =
      if_rule (λ (y : Incident). y.pending ≡ []) (taken (λ i. true) x)
        (λ e. unfold delivered in refl) λ e. v.idle (ground arith)

  count_pending-flushed :
      (incs : List Incident)
      → All IncidentOk incs
      → count_pending p (map (λ inc. if taken (λ i. true) inc then delivered inc else inc) incs) ≡ 0
  count_pending-flushed [] h = unfold count_pending count in refl
  count_pending-flushed (x ∷ xs) h = omega (
    arith,
    count_pending-flushed xs h.1,
    ap (count p) (flushed-pending x h.0),
    count_nil p,
    count_pending-cons p (if taken (λ i. true) x then delivered x else x)
        (map (λ inc. if taken (λ i. true) inc then delivered inc else inc) xs),
  )

  held-flush : (g : Grouper) → IsValid g → count p (held (flush g).1) ≡ 0
  unfolding flush take count_batches
  held-flush g v =
      omega (arith, count-held p (flush g).1, count_pending-flushed g.opened v.each, count_nil p)

nothing_held : (p : Issue → Bool) (cfg : Config) → count p (held (new cfg)) ≡ 0
unfolding new count
nothing_held p cfg = refl

-- From the start and after any operations, a last `Flush` completes the delivery: the alerts of
-- any kind that all the batches carry are as many as were added. A kind is a test that does not
-- look at the incident's number, which `Add` sets; the clock must stand after Go's zero time.
pub run-flush_delivers_once :
    (p : Issue → Bool) (cfg : Config) (ops : List Op)
    → IgnoresId p
    → All HasTime ops
    → count p (batch_alerts (run (new cfg) ops).0)
        + count p (batch_alerts (flush (run (new cfg) ops).1).0)
      ≡ count p (added ops)
unfolding flush
run-flush_delivers_once p cfg ops same h = omega (
  arith,
  run-conserves p (new cfg) ops same h (new-IsValid cfg),
  take-conserves p (λ inc. true) (run (new cfg) ops).1,
  held-flush p (run (new cfg) ops).1 (run-IsValid cfg ops h),
  nothing_held p cfg,
)
