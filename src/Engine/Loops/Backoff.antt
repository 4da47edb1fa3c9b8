-- ===== src/Engine/Loops/Backoff.antt =====
-- internal/engine/engine.go, nextBackoff in runPoll: how long the loop waits for a daemon that does not answer.
use nodux.Base.{
  ℕ, ◌*◌, ◌^◌, ◌≤◌, ◌≡◌, refl, sym, ap, ◌∙◌, false, List, [], ◌∷◌, length, min, inl, inr, leb,
  Bool-cases, arith,
}
use native.Mathlib.Nat.{
  min-eq_left, min-eq_right, mul-le-mul_left, mul-le-mul_right, mul_assoc, one-le-pow, pow-succ',
}
use nodux.Engine.Loops.{Loops, PollLoop, max_backoff, next_backoff, poll_round}
use nodux.Engine.Poll.{poll_once}

next_backoff-min : (b : ℕ) → next_backoff b ≡ min (b * 2) max_backoff
unfolding next_backoff
next_backoff-min b = ground arith

-- The waits without a limit, and with it.
double_min :
    (b p : ℕ)
    → 1 ≤ p
    → min (min (b * 2) max_backoff * p) max_backoff ≡ min (b * (2 * p)) max_backoff
double_min b p h = elim (Bool-cases (leb (b * 2) max_backoff)) [
  | inl fits ↦
      let le : b * 2 ≤ max_backoff = ground arith in
      rw (min-eq_left le) (ap (λ (n : ℕ). min n max_backoff) (mul_assoc b 2 p))
  | inr past ↦
      let le : max_backoff ≤ b * 2 = ground arith in
      let more : max_backoff * p ≤ b * 2 * p = mul-le-mul_right p le in
      let most : max_backoff * 1 ≤ max_backoff * p = mul-le-mul_left max_backoff h in
      rw
        (
          min-eq_right le,
          min-eq_right {n = max_backoff} {m = max_backoff * p} (omega (arith, most)),
          min-eq_right {n = max_backoff} {m = b * (2 * p)}
              (omega (arith, more, most, mul_assoc b 2 p)),
        )
        refl
]

-- Rounds at the given times.
unfoldable pub poll_rounds : {D : Type 0} → Loops D → List ℕ → PollLoop D → PollLoop D
poll_rounds w [] l = l
poll_rounds w (now ∷ times) l = poll_rounds w times (poll_round w now l)

module _ {D : Type 0} (w : Loops D) where
  round-backoff :
      (now : ℕ) (l : PollLoop D)
      → w.rounds.ping ≡ false
      → ((poll_round w now l).wait ≡ l.backoff)
        × ((poll_round w now l).backoff ≡ next_backoff l.backoff)
  unfolding poll_round poll_once
  round-backoff now l down = rw down (refl, refl)

  poll_rounds-backoff :
      (times : List ℕ) (l : PollLoop D)
      → w.rounds.ping ≡ false
      → l.backoff ≤ max_backoff
      → (poll_rounds w times l).backoff ≡ min (l.backoff * 2 ^ length times) max_backoff
  unfolding poll_rounds
  poll_rounds-backoff [] l down h = omega arith
  poll_rounds-backoff (now ∷ times) l down h =
      let l' = poll_round w now l in
      let next = (round-backoff now l down).1 ∙ next_backoff-min l.backoff in
      poll_rounds-backoff times l' down (omega (arith, next))
      ∙ ap (λ (n : ℕ). min (n * 2 ^ length times) max_backoff) next
      ∙ double_min l.backoff (2 ^ length times) (one-le-pow (length times) 2 (omega arith))
      ∙ ap (λ (n : ℕ). min (l.backoff * n) max_backoff) (sym (pow-succ' 2 (length times)))

  -- While the daemon does not answer, the loop waits the time that it starts with after the first poll, and
  -- twice as long after each further one, but never longer than half a minute.
  pub poll_rounds-wait :
      (times : List ℕ) (now : ℕ) (l : PollLoop D)
      → w.rounds.ping ≡ false
      → l.backoff ≤ max_backoff
      → (poll_round w now (poll_rounds w times l)).wait
        ≡ min (l.backoff * 2 ^ length times) max_backoff
  poll_rounds-wait times now l down h =
      (round-backoff now (poll_rounds w times l) down).0 ∙ poll_rounds-backoff times l down h
