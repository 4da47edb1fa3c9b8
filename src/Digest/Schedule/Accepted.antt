-- ===== src/Digest/Schedule/Accepted.antt =====
-- internal/digest/schedule.go, ParseSchedule: what an accepted schedule holds.
use nodux.Base.{
  ℕ, ◌≡◌, ◌⊎◌, inl, inr, ◌≤◌, ◌<◌, String, Option, none, some, ℤ, pos, negsuc, arith, List, [], ◌∷◌,
  any, leb, false, refl, option_rule, string_eq, subst, Bool, true, false,
}
use nodux.Dict.{lookup}
use nodux.Digest.Schedule.{
  Calendar, next, Parsers, Schedule, ScheduleError, within, parse_at, parse_every, parse_schedule,
  weekdays, with_weekday,
}
use nodux.Digest.Schedule.Next.{IsCalendar, IsFirst, next-IsFirst}

Most : ℕ → Option ℕ → Type 0
Most most none = Unit
Most most (some n) = n ≤ most

lookup-below :
    (days : List (String × ℕ)) (day : String) (n : ℕ)
    → any (λ d. leb 7 d.1) days ≡ false
    → lookup day days ≡ some n
    → n < 7
unfolding lookup any
lookup-below [] day n h e = absurd (ground (arith, e))
lookup-below (d ∷ days) day n h e = ground (arith, h, e, lookup-below days day n)

weekday_lt : (day : String) (n : ℕ) → lookup day weekdays ≡ some n → n < 7
unfolding any
weekday_lt day n e = lookup-below weekdays day n refl e

abbrev pub IsTime : ScheduleError ⊎ Schedule → Type 0
IsTime (inl e) = Unit
IsTime (inr s) = (s.hour < 24) × (s.minute < 60) × (s.weekday < 7)

abbrev AtTime : Option (ℕ × ℕ) → Type 0
AtTime none = Unit
AtTime (some (h, m)) = (h ≤ 23) × (m ≤ 59)

module _ (ps : Parsers) where
  within-Most : (most : ℕ) (n : Option ℤ) → Most most (within most n)
  unfolding within Most
  within-Most most none = tt
  within-Most most (some (pos n)) = ground arith
  within-Most most (some (negsuc n)) = tt

  AtTime-pair :
      (h m : Option ℕ)
      → Most 23 h
      → Most 59 m
      → AtTime (elim h [
        | none ↦ none
        | some hour ↦ elim m [ none ↦ none | some minute ↦ some (hour, minute) ]
      ])
  unfolding Most
  AtTime-pair none m a b = tt
  AtTime-pair (some h) none a b = tt
  AtTime-pair (some h) (some m) a b = (a, b)

  parse_at-AtTime : (text : String) → AtTime (parse_at ps text)
  unfolding parse_at
  parse_at-AtTime text =
      option_rule AtTime (ps.cut text) (λ e. tt)
        (λ hm e. AtTime-pair _ _ (within-Most 23 (ps.atoi hm.0)) (within-Most 59 (ps.atoi hm.1)))

  with_weekday-IsTime :
      (weekly : Bool) (time : ℕ × ℕ) (weekday : String)
      → AtTime (some time)
      → IsTime (with_weekday ps weekly time weekday)
  unfolding with_weekday
  with_weekday-IsTime false time weekday h = (omega (arith, h), omega (arith, h), omega arith)
  with_weekday-IsTime true time weekday h =
      option_rule IsTime (lookup (ps.to_lower weekday) weekdays) (λ e. tt)
        (λ day e. (omega (arith, h), omega (arith, h), weekday_lt (ps.to_lower weekday) day e))

  -- The fields of an accepted schedule are those of a time of day and of a day of the week.
  parse_schedule-IsTime :
      (every text weekday : String) → IsTime (parse_schedule ps every text weekday)
  unfolding parse_schedule
  parse_schedule-IsTime every text weekday =
      option_rule IsTime (parse_every ps every) (λ e. tt)
        (λ weekly e.
          option_rule IsTime (parse_at ps text) (λ f. tt)
            (λ time f.
              with_weekday-IsTime weekly time weekday (subst AtTime f (parse_at-AtTime text))))

  -- For a calendar whose days follow each other: an accepted schedule has a next time after any, which `Next`
  -- finds within eight turns of its loop. It is on the first day, from that of now on, whose time is after
  -- now and, for a weekly digest, on its day of the week; and the schedule holds a time of day.
  pub parse_schedule-next :
      (cal : Calendar) (law : IsCalendar cal) (every text weekday : String) (s : Schedule) (now : ℕ)
      → parse_schedule ps every text weekday ≡ inr s
      → IsTime (inr s) × IsFirst cal s now (cal.day_of now) 7 (next cal s now)
  parse_schedule-next cal law every text weekday s now e =
      let time : IsTime (inr s) = subst IsTime e (parse_schedule-IsTime every text weekday) in
      (time, next-IsFirst cal law s now time.2)
