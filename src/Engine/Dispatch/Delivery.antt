-- ===== src/Engine/Dispatch/Delivery.antt =====
-- internal/engine/dispatch.go: every alert of the queue is handed to the delivery once.
use nodux.Base.{
  ℕ, ◌≡◌, refl, ap, ◌∙◌, ◌+◌, ◌<◌, Bool, true, false, List, [], ◌∷◌, ◌++◌, if◌then◌else◌, All,
  count, count-append, arith, if_rule,
}
use nodux.Detector.Types.{Issue}
use nodux.Incident.{Grouper, Batch, Config, new, flush, due, add, set_summary}
use nodux.Incident.Counts.{batch_alerts, batch_alerts-append}
use nodux.Incident.Valid.{Op, adds, dues, summarizes, HasTime, step, run}
use nodux.Incident.Filed.{IgnoresId}
use nodux.Incident.Conserve.{added, run-flush_delivers_once}
use nodux.Engine.Dispatch.{Input, queued, woken, summarized, one_alert, dispatch_one, dispatch}

-- The alerts of the queue.
abbrev pub alerts_in : List Input → List Issue
alerts_in [] = []
alerts_in (queued at issue now ∷ inputs) = issue ∷ alerts_in inputs
alerts_in (woken now ∷ inputs) = alerts_in inputs
alerts_in (summarized id summary ∷ inputs) = alerts_in inputs

-- The clock stands after Go's zero time.
abbrev pub IsTimed : Input → Type 0
IsTimed (queued at issue now) = 0 < at
IsTimed _ = Unit

-- The calls of the grouper in one round.
abbrev calls : Input → List Op → List Op
calls (queued at issue now) ops =
    if issue.silenced then dues now ∷ ops else adds at issue ∷ dues now ∷ ops
calls (woken now) ops = dues now ∷ ops
calls (summarized id summary) ops = summarizes id summary ∷ ops

abbrev all_calls : List Input → List Op
all_calls [] = []
all_calls (i ∷ inputs) = calls i (all_calls inputs)

abbrev silenced_in : List Input → List Issue
silenced_in [] = []
silenced_in (queued at issue now ∷ inputs) =
    if issue.silenced then issue ∷ silenced_in inputs else silenced_in inputs
silenced_in (_ ∷ inputs) = silenced_in inputs

all_calls-HasTime : (inputs : List Input) → All IsTimed inputs → All HasTime (all_calls inputs)
all_calls-HasTime [] h = tt
all_calls-HasTime (queued at issue now ∷ inputs) h =
    if_rule (All HasTime) issue.silenced (λ e. (tt, all_calls-HasTime inputs h.1))
      (λ e. (h.0, (tt, all_calls-HasTime inputs h.1)))
all_calls-HasTime (woken now ∷ inputs) h = (tt, all_calls-HasTime inputs h.1)
all_calls-HasTime (summarized id summary ∷ inputs) h = (tt, all_calls-HasTime inputs h.1)

module _ (p : Issue → Bool) where
  abbrev total : List Batch → ℕ
  total bs = count p (batch_alerts bs)

  total-append : (xs ys : List Batch) → total (xs ++ ys) ≡ total xs + total ys
  total-append xs ys =
      ap (count p) (batch_alerts-append xs ys) ∙ count-append p (batch_alerts xs) (batch_alerts ys)

  silenced_round :
      (issue : Issue) (inputs : List Input) (out : List Batch) (d : Grouper)
      → total (dispatch d inputs)
        ≡ total (run d (all_calls inputs)).0
          + total (flush (run d (all_calls inputs)).1).0
          + count p (silenced_in inputs)
      → total ((one_alert issue ∷ out) ++ dispatch d inputs)
        ≡ total (out ++ (run d (all_calls inputs)).0)
          + total (flush (run d (all_calls inputs)).1).0
          + count p (issue ∷ silenced_in inputs)
  unfolding count
  silenced_round issue inputs out d h = ground (
    arith,
    total-append out (dispatch d inputs),
    h,
    total-append out (run d (all_calls inputs)).0,
  )

  abbrev Splits : Grouper → List Input → Type 0
  Splits d inputs =
      total (dispatch d inputs)
      ≡ total (run d (all_calls inputs)).0
        + total (flush (run d (all_calls inputs)).1).0
        + count p (silenced_in inputs)

  abbrev round : Bool → ℕ → ℕ → Issue → Grouper → List Batch × Grouper
  round b at now issue g =
      if b then (one_alert issue ∷ (due now g).0, (due now g).1) else due now (add at issue g)

  abbrev ops : Bool → ℕ → ℕ → Issue → List Input → List Op
  ops b at now issue inputs =
      if b then dues now ∷ all_calls inputs else adds at issue ∷ dues now ∷ all_calls inputs

  queued_round :
      (b : Bool) (at now : ℕ) (issue : Issue) (inputs : List Input) (g : Grouper)
      → ((d : Grouper) → Splits d inputs)
      → total ((round b at now issue g).0 ++ dispatch (round b at now issue g).1 inputs)
        ≡ total (run g (ops b at now issue inputs)).0
          + total (flush (run g (ops b at now issue inputs)).1).0
          + count p (if b then issue ∷ silenced_in inputs else silenced_in inputs)
  unfolding run step
  queued_round true at now issue inputs g h =
      silenced_round issue inputs (due now g).0 (due now g).1 (h (due now g).1)
  queued_round false at now issue inputs g h =
      let d = due now (add at issue g) in
      omega (
        arith,
        total-append d.0 (dispatch d.1 inputs),
        h d.1,
        total-append d.0 (run d.1 (all_calls inputs)).0,
      )

  -- Where the silenced alerts go, and the rest.
  dispatch-run :
      (g : Grouper) (inputs : List Input)
      → total (dispatch g inputs)
        ≡ total (run g (all_calls inputs)).0
          + total (flush (run g (all_calls inputs)).1).0
          + count p (silenced_in inputs)
  unfolding dispatch run dispatch_one step
  dispatch-run g [] = unfold count in omega arith
  dispatch-run g (woken now ∷ inputs) = omega (
    arith,
    total-append (due now g).0 (dispatch (due now g).1 inputs),
    dispatch-run (due now g).1 inputs,
    total-append (due now g).0 (run (due now g).1 (all_calls inputs)).0,
  )
  dispatch-run g (summarized id summary ∷ inputs) = dispatch-run (set_summary id summary g) inputs
  dispatch-run g (queued at issue now ∷ inputs) =
      queued_round issue.silenced at now issue inputs g (λ d. dispatch-run d inputs)

  count_queued :
      (b : Bool) (at now : ℕ) (issue : Issue) (inputs : List Input)
      → count p (alerts_in inputs)
        ≡ count p (added (all_calls inputs)) + count p (silenced_in inputs)
      → count p (issue ∷ alerts_in inputs)
        ≡ count p (added (ops b at now issue inputs))
          + count p (if b then issue ∷ silenced_in inputs else silenced_in inputs)
  unfolding count
  count_queued true at now issue inputs h = ground (arith, h)
  count_queued false at now issue inputs h = ground (arith, h)

  count-alerts_in :
      (inputs : List Input)
      → count p (alerts_in inputs)
        ≡ count p (added (all_calls inputs)) + count p (silenced_in inputs)
  unfolding count
  count-alerts_in [] = refl
  count-alerts_in (queued at issue now ∷ inputs) =
      count_queued issue.silenced at now issue inputs (count-alerts_in inputs)
  count-alerts_in (woken now ∷ inputs) = count-alerts_in inputs
  count-alerts_in (summarized id summary ∷ inputs) = count-alerts_in inputs

-- Until the queue is closed and what is held back is flushed, every alert of the queue is handed to the
-- delivery once: the alerts of any kind in the batches are as many as in the queue. A kind is a test
-- that does not look at the incident's number; the clock stands after Go's zero time.
pub dispatch_delivers_once :
    (p : Issue → Bool) (cfg : Config) (inputs : List Input)
    → IgnoresId p
    → All IsTimed inputs
    → count p (batch_alerts (dispatch (new cfg) inputs)) ≡ count p (alerts_in inputs)
dispatch_delivers_once p cfg inputs same h = omega (
  arith,
  dispatch-run p (new cfg) inputs,
  count-alerts_in p inputs,
  run-flush_delivers_once p cfg (all_calls inputs) same (all_calls-HasTime inputs h),
)
