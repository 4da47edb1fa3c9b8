-- ===== src/Engine/Dispatch.antt =====
-- internal/engine/dispatch.go, dispatch: the loop between the queue of alerts and the delivery. An input
-- is what the `select` receives; `send` sets a summary from the other side in between.
pub mod Delivery
pub mod Send
pub mod Accounts
use nodux.Base.{ℕ, Bool, true, false, String, List, [], ◌∷◌, ◌++◌, if◌then◌else◌, nat_eq}
use nodux.Detector.Types.{Issue}
use nodux.Incident.{Grouper, Batch, add, due, flush, set_summary}

pub data Input : Type 0 where
  -- An alert from the queue, with the clock's time for the grouper and for what is due.
  queued : ℕ → Issue → ℕ → Input
  -- The timer.
  woken : ℕ → Input
  summarized : ℕ → String → Input

abbrev pub one_alert : Issue → Batch
one_alert issue = record {
  incident_id = 0;
  update = false;
  alerts = issue ∷ [];
  earlier = [];
  prev_summary = "";
}

-- One round of the loop.
unfoldable pub dispatch_one : Input → Grouper → List Batch × Grouper
dispatch_one (queued at issue now) g =
    if issue.silenced
    then (one_alert issue ∷ (due now g).0, (due now g).1)
    else due now (add at issue g)
dispatch_one (woken now) g = due now g
dispatch_one (summarized id summary) g = ([], set_summary id summary g)

-- The batches that are handed over until the queue is closed after the inputs.
unfoldable pub dispatch : Grouper → List Input → List Batch
dispatch g [] = (flush g).0
dispatch g (i ∷ inputs) = let (out, g') = dispatch_one i g in out ++ dispatch g' inputs
