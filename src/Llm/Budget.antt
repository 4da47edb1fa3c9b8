-- ===== src/Llm/Budget.antt =====
-- internal/llm/anthropic.go: the hourly budget of `Anthropic`, and how requests are counted. The mutex
-- and the atomics are not modelled: a method is one step. The counters do not wrap.
pub mod Cap
use nodux.Base.{
  ℕ, ◌+◌, ◌-◌, Bool, true, false, List, [], ◌∷◌, ◌++◌, Option, none, some, if◌then◌else◌, ltb, leb,
  is_zero, select, length,
}

abbrev pub hour : ℕ
hour = 3600000000000

pub record Anthropic : Type 0 where
  pub max_per_hour : ℕ
  pub calls : List ℕ
  pub ok : ℕ
  pub failed : ℕ
  pub over_budget : ℕ

pub record BudgetReport : Type 0 where
  pub max_per_hour : ℕ
  pub remaining : ℕ
  pub ok : ℕ
  pub failed : ℕ
  pub over_budget : ℕ

-- `t.After(now.Add(-time.Hour))`.
unfoldable pub prune : ℕ → Anthropic → Anthropic
prune now a = record a { calls = select (λ t. ltb now (t + hour)) a.calls }

unfoldable pub allow : ℕ → Anthropic → Bool × Anthropic
unfolding prune
allow now a =
    if is_zero a.max_per_hour
    then (true, a)
    else if leb a.max_per_hour (length (prune now a).calls)
    then (false, prune now a)
    else (true, record a { calls = (prune now a).calls ++ now ∷ [] })

-- `max(a.maxPerHour-used, 0)`, which a subtraction of natural numbers is.
unfoldable pub budget : ℕ → Anthropic → BudgetReport × Anthropic
unfolding prune
budget now a = (
  record {
    max_per_hour = a.max_per_hour;
    remaining = if is_zero a.max_per_hour then 0 else a.max_per_hour - length (prune now a).calls;
    ok = a.ok;
    failed = a.failed;
    over_budget = a.over_budget;
  },
  prune now a,
)

-- What a request comes to.
pub data Outcome {ℓ} (A : Type ℓ) : Type ℓ where
  exhausted : Outcome A
  error : Outcome A
  answer : A → Outcome A

-- `run`: the conversation is only held where the budget allows it.
unfoldable pub run {ℓ} : {A : Type ℓ} → ℕ → Option A → Anthropic → Outcome A × Anthropic
unfolding allow
run now reply a =
    let (ok, a') = allow now a in
    if ok
    then (elim reply [
      | none ↦ (error, record a' { failed = a'.failed + 1 })
      | some text ↦ (answer text, record a' { ok = a'.ok + 1 })
    ])
    else (exhausted, record a' { over_budget = a'.over_budget + 1 })
