-- ===== src/Digest/Schedule/Next.antt =====
-- internal/digest/schedule.go, Next: the loop ends, at the first time that fits.
use nodux.Base.{
  ℕ, zero, suc, ◌≡◌, ◌∙◌, ◌+◌, ◌-◌, ◌%◌, ◌≤◌, ◌<◌, ap, sym, subst, inl, inr, Bool-cases, true,
  false, List, [], ◌∷◌, Option, some, All, arith, nat_eq,
}
use nodux.Digest.Schedule.{Calendar, Schedule, fits, search, next}

-- What `Next` relies on: a later day has later times, tomorrow is after now, and the days of the week
-- follow each other.
pub record IsCalendar (cal : Calendar) : Type 0 where
  pub later : (day hour minute : ℕ) → cal.date day hour minute < cal.date (day + 1) hour minute
  pub tomorrow : (now hour minute : ℕ) → now < cal.date (cal.day_of now + 1) hour minute
  pub week :
      (day hour minute : ℕ)
      → cal.weekday (cal.date (day + 1) hour minute)
        ≡ (cal.weekday (cal.date day hour minute) + 1) % 7

-- The days from one on.
abbrev pub days_from : ℕ → ℕ → List ℕ
days_from day zero = []
days_from day (suc n) = day ∷ days_from (day + 1) n

day_after : (d n : ℕ) → d + suc n + 1 ≡ d + suc (suc n)
day_after d n = omega arith

-- Within a week of each day of the week there is any other.
week_lem : (w t : ℕ) → w < 7 → t < 7 → (w + (t + 7 - w) % 7) % 7 ≡ t
week_lem w t lw lt = omega (arith, lw, lt)

module _ (cal : Calendar) where
  -- A time is that of the first day, from one on, that fits, and at most `fuel` days were passed over.
  abbrev pub IsFirst : Schedule → ℕ → ℕ → ℕ → Option ℕ → Type 0
  IsFirst s now day fuel found =
      (n : ℕ) × (n ≤ fuel)
      × (found ≡ some (cal.date (day + n) s.hour s.minute))
      × (fits cal s now (cal.date (day + n) s.hour s.minute) ≡ true)
      × All (λ d. fits cal s now (cal.date d s.hour s.minute) ≡ false) (days_from day n)

  at_once :
      (s : Schedule) (now fuel day : ℕ) (found : Option ℕ)
      → found ≡ some (cal.date day s.hour s.minute)
      → fits cal s now (cal.date day s.hour s.minute) ≡ true
      → IsFirst s now day fuel found
  at_once s now fuel day found e f = (0, omega arith, ground (arith, e), ground (arith, f), tt)

  passed :
      (s : Schedule) (now fuel day : ℕ) (found : Option ℕ)
      → fits cal s now (cal.date day s.hour s.minute) ≡ false
      → IsFirst s now (day + 1) fuel found
      → IsFirst s now day (suc fuel) found
  passed s now fuel day found f (n, le, e, g, all) = (
    suc n,
    omega (arith, le),
    e ∙ ap (λ d. some (cal.date d s.hour s.minute)) (omega arith),
    ap (λ d. fits cal s now (cal.date d s.hour s.minute)) (omega arith) ∙ g,
    (f, all),
  )

  search-IsFirst :
      (s : Schedule) (now fuel j day : ℕ)
      → j ≤ fuel
      → fits cal s now (cal.date (day + j) s.hour s.minute) ≡ true
      → IsFirst s now day fuel (search cal fuel s now day)
  unfolding search
  search-IsFirst s now zero j day le e =
      at_once s now 0 day _ (ground (arith, e, le)) (ground (arith, e, le))
  search-IsFirst s now (suc fuel) zero day le e =
      at_once s now (suc fuel) day _ (ground (arith, e)) (ground (arith, e))
  search-IsFirst s now (suc fuel) (suc j) day le e =
      elim (Bool-cases (fits cal s now (cal.date day s.hour s.minute))) [
        | inl f ↦ at_once s now (suc fuel) day _ (ground (arith, f)) f
        | inr f ↦ subst (IsFirst s now day (suc fuel)) (sym (step f)) (
            passed s now fuel day (search cal fuel s now (day + 1)) f (
              search-IsFirst s now fuel j (day + 1) (omega (arith, le))
                (ap (λ d. fits cal s now (cal.date d s.hour s.minute)) (omega arith) ∙ e)))
      ]
    where
      step :
          fits cal s now (cal.date day s.hour s.minute) ≡ false
          → search cal (suc fuel) s now day ≡ search cal fuel s now (day + 1)
      step f = ground (arith, f)

  module _ (law : IsCalendar cal) (now hour minute : ℕ) where
    after : (n : ℕ) → now < cal.date (cal.day_of now + suc n) hour minute
    after zero = law.tomorrow now hour minute
    after (suc n) =
        subst (λ d. now < cal.date d hour minute) (day_after (cal.day_of now) n)
          (omega (arith, after n, law.later (cal.day_of now + suc n) hour minute))

    weekday_after :
        (n : ℕ)
        → cal.weekday (cal.date (cal.day_of now + suc n) hour minute)
          ≡ (cal.weekday (cal.date (cal.day_of now + 1) hour minute) + n) % 7
    weekday_after zero = omega (arith, law.week (cal.day_of now) hour minute)
    weekday_after (suc n) =
        ap (λ d. cal.weekday (cal.date d hour minute)) (sym (day_after (cal.day_of now) n))
        ∙ omega (arith, weekday_after n, law.week (cal.day_of now + suc n) hour minute)

  -- A day of the coming week that fits.
  fits_within :
      (law : IsCalendar cal) (s : Schedule) (now : ℕ)
      → s.weekday < 7
      → (j : ℕ) × (j ≤ 7) × (fits cal s now (cal.date (cal.day_of now + j) s.hour s.minute) ≡ true)
  unfolding fits
  fits_within law s now wd = elim (Bool-cases s.weekly) [
    | inl e ↦ (
      suc wait,
      omega arith,
      ground (
        arith,
        after law now s.hour s.minute wait,
        weekday_after law now s.hour s.minute wait,
        e,
        week_lem first s.weekday (omega (arith, law.week (cal.day_of now) s.hour s.minute)) wd,
      ),
    )
    | inr e ↦ (1, omega arith, ground (arith, law.tomorrow now s.hour s.minute, e))
  ]
    where
      first : ℕ
      first = cal.weekday (cal.date (cal.day_of now + 1) s.hour s.minute)

      wait : ℕ
      wait = (s.weekday + 7 - first) % 7

  pub next-IsFirst :
      (law : IsCalendar cal) (s : Schedule) (now : ℕ)
      → s.weekday < 7
      → IsFirst s now (cal.day_of now) 7 (next cal s now)
  unfolding next
  next-IsFirst law s now wd =
      search-IsFirst s now 7 (fits_within law s now wd).0 (cal.day_of now)
        (fits_within law s now wd).1 (fits_within law s now wd).2
