-- ===== src/Llm/Budget/Cap.antt =====
-- internal/llm/anthropic.go: the budget bounds the requests of any hour, and refuses none too early.
use nodux.Base.{
  ℕ, ◌≡◌, refl, ap₂, ◌∙◌, ◌+◌, ◌<◌, ◌≤◌, Bool, true, ◌&&◌, List, [], ◌∷◌, if◌then◌else◌, ltb, leb,
  is_zero, select, length, count, All, All-select, All-append, count-append, if_rule, arith,
}
use nodux.Llm.Budget.{Anthropic, hour, prune, allow}

-- A request of the hour that ends at a time.
abbrev pub in_hour : ℕ → ℕ → Bool
in_hour end t = leb t end && ltb end (t + hour)

-- The times of the requests, the newest first, and the state that they leave.
abbrev pub after : Anthropic → List ℕ → Anthropic
after a [] = a
after a (now ∷ older) = (allow now (after a older)).1

-- The times of those that were allowed, the newest first.
abbrev pub granted : Anthropic → List ℕ → List ℕ
granted a [] = []
granted a (now ∷ older) =
    if (allow now (after a older)).0 then now ∷ granted a older else granted a older

-- The clock does not go back; the newest time is at most a given one.
abbrev pub Timed : ℕ → List ℕ → Type 0
Timed end [] = Unit
Timed end (now ∷ older) = (now ≤ end) × Timed now older

abbrev pub fresh : ℕ → Anthropic
fresh limit = record { max_per_hour = limit; calls = []; ok = 0; failed = 0; over_budget = 0 }

count-select : (p q : ℕ → Bool) (xs : List ℕ) → count p (select q xs) ≡ count (λ t. p t && q t) xs
unfolding count select
count-select p q [] = refl
count-select p q (x ∷ xs) = ground (arith, count-select p q xs)

length-select : (q : ℕ → Bool) (xs : List ℕ) → length (select q xs) ≡ count q xs
unfolding count select
length-select q [] = refl
length-select q (x ∷ xs) = ground (arith, length-select q xs)

count-all : (p q : ℕ → Bool) (xs : List ℕ) → All (λ t. p t ≡ q t) xs → count p xs ≡ count q xs
unfolding count
count-all p q [] h = refl
count-all p q (x ∷ xs) h = ground (arith, h.0, count-all p q xs h.1)

count-le :
    (p q : ℕ → Bool) (xs : List ℕ) → All (λ t. p t ≡ true → q t ≡ true) xs → count p xs ≤ count q xs
unfolding count
count-le p q [] h = omega arith
count-le p q (x ∷ xs) h = ground (arith, h.0, count-le p q xs h.1)

All-map {ℓ κ} :
    {P : ℕ → Type ℓ} {Q : ℕ → Type κ} (f : (t : ℕ) → P t → Q t) (xs : List ℕ) → All P xs → All Q xs
All-map f [] h = tt
All-map f (x ∷ xs) h = (f x h.0, All-map f xs h.1)

max_after : (limit : ℕ) (ts : List ℕ) → (after (fresh limit) ts).max_per_hour ≡ limit
unfolding allow
max_after limit [] = refl
max_after limit (now ∷ older) = ground (arith, max_after limit older)

Timed-le : (lo hi : ℕ) (ts : List ℕ) → lo ≤ hi → Timed lo ts → Timed hi ts
Timed-le lo hi [] le h = tt
Timed-le lo hi (now ∷ older) le h = (omega (arith, le, h.0), h.1)

allow-All :
    (P : ℕ → Type 0) (now : ℕ) (a : Anthropic) → All P a.calls → P now → All P (allow now a).1.calls
unfolding allow
allow-All P now a h p =
    if_rule (λ (r : Bool × Anthropic). All P r.1.calls) (is_zero a.max_per_hour) (λ e. h)
      (λ e.
        if_rule (λ (r : Bool × Anthropic). All P r.1.calls)
          (leb a.max_per_hour (length (prune now a).calls)) (λ e'. kept)
          (λ e'. All-append P (prune now a).calls (now ∷ []) kept (p, tt)))
  where
    kept : All P (prune now a).calls
    kept = All-select P (λ t. ltb now (t + hour)) a.calls h

calls-before :
    (limit end : ℕ) (ts : List ℕ) → Timed end ts → All (λ t. t ≤ end) (after (fresh limit) ts).calls
calls-before limit end [] h = tt
calls-before limit end (now ∷ older) h =
    allow-All (λ t. t ≤ end) now (after (fresh limit) older)
      (All-map (λ t le. omega (arith, le, h.0)) _ (calls-before limit now older h.1)) h.0

granted-before :
    (limit end : ℕ) (ts : List ℕ) → Timed end ts → All (λ t. t ≤ end) (granted (fresh limit) ts)
granted-before limit end [] h = tt
granted-before limit end (now ∷ older) h =
    if_rule (All (λ t. t ≤ end)) (allow now (after (fresh limit) older)).0
      (λ e. (h.0, All-map (λ t le. omega (arith, le, h.0)) _ (granted-before limit now older h.1)))
      (λ e. All-map (λ t le. omega (arith, le, h.0)) _ (granted-before limit now older h.1))

-- An hour that has not ended yet loses nothing by the pruning.
count-pruned :
    (now end : ℕ) (ts : List ℕ)
    → now ≤ end
    → count (in_hour end) (select (λ t. ltb now (t + hour)) ts) ≡ count (in_hour end) ts
count-pruned now end ts le =
    count-select (in_hour end) (λ t. ltb now (t + hour)) ts
    ∙ count-all (λ t. in_hour end t && ltb now (t + hour)) (in_hour end) ts (each ts)
  where
    each : (xs : List ℕ) → All (λ t. (in_hour end t && ltb now (t + hour)) ≡ in_hour end t) xs
    each [] = tt
    each (x ∷ xs) = (ground arith, each xs)

-- The calls that a request finds.
found-count :
    (now : ℕ) (a : Anthropic)
    → All (λ t. t ≤ now) a.calls
    → length (prune now a).calls ≡ count (in_hour now) a.calls
unfolding prune
found-count now a h =
    length-select (λ t. ltb now (t + hour)) a.calls
    ∙ count-all (λ t. ltb now (t + hour)) (in_hour now) a.calls
        (All-map (λ t le. ground (arith, le)) _ h)

allow-count :
    (now end : ℕ) (a : Anthropic)
    → 0 < a.max_per_hour
    → now ≤ end
    → count (in_hour end) (allow now a).1.calls
      ≡ (if (allow now a).0 then count (in_hour end) (now ∷ []) else 0)
        + count (in_hour end) a.calls
unfolding allow prune
allow-count now end a pos le = ground (
  arith,
  pos,
  count-pruned now end a.calls le,
  count-append (in_hour end) (select (λ t. ltb now (t + hour)) a.calls) (now ∷ []),
)

-- What the state remembers of an hour that has not ended yet is what was allowed in it.
remembered :
    (limit end : ℕ) (ts : List ℕ)
    → 0 < limit
    → Timed end ts
    → count (in_hour end) (after (fresh limit) ts).calls
      ≡ count (in_hour end) (granted (fresh limit) ts)
unfolding count
remembered limit end [] pos h = refl
remembered limit end (now ∷ older) pos h = ground (
  arith,
  remembered limit end older pos (Timed-le now end older h.0 h.1),
  allow-count now end (after (fresh limit) older) (omega (arith, max_after limit older, pos)) h.0,
)

allow-length :
    (now : ℕ) (a : Anthropic)
    → 0 < a.max_per_hour
    → (allow now a).0 ≡ ltb (length (prune now a).calls) a.max_per_hour
unfolding allow
allow-length now a pos = ground (arith, pos)

-- With a limit, and a clock that does not go back: a request is allowed exactly if fewer than the limit were
-- allowed in the hour before it.
pub allow-granted :
    (limit now : ℕ) (older : List ℕ)
    → 0 < limit
    → Timed now older
    → (allow now (after (fresh limit) older)).0
      ≡ ltb (count (in_hour now) (granted (fresh limit) older)) limit
allow-granted limit now older pos h =
    allow-length now (after (fresh limit) older) (omega (arith, max_after limit older, pos))
    ∙ ap₂ ltb
        (found-count now (after (fresh limit) older) (calls-before limit now older h)
          ∙ remembered limit now older pos h)
        (max_after limit older)

-- Of what was allowed up to now, an hour that ends later holds no more than the hour that ends now.
later-le :
    (limit now end : ℕ) (older : List ℕ)
    → Timed now older
    → now ≤ end
    → count (in_hour end) (granted (fresh limit) older)
      ≤ count (in_hour now) (granted (fresh limit) older)
later-le limit now end older h le =
    count-le (in_hour end) (in_hour now) (granted (fresh limit) older) (
      All-map (λ t before inside. ground (arith, before, inside, le)) _
        (granted-before limit now older h))

-- With a limit, and a clock that does not go back: in no hour more requests are allowed than the limit.
pub granted-le :
    (limit start end : ℕ) (ts : List ℕ)
    → 0 < limit
    → Timed start ts
    → count (in_hour end) (granted (fresh limit) ts) ≤ limit
unfolding count
granted-le limit start end [] pos h = omega arith
granted-le limit start end (now ∷ older) pos h = ground (
  arith,
  granted-le limit now end older pos h.1,
  allow-granted limit now older pos h.1,
  later-le limit now end older h.1,
)
