-- ===== src/Digest/Schedule.antt =====
-- internal/digest/schedule.go: when the digest goes out. Texts and the calendar of the time zone are
-- parameters: a date is the number of its day, which `time.Date` takes beyond the end of a month too.
pub mod Accepted
pub mod Next
pub mod Tests
use nodux.Base.{
  ℕ, zero, suc, ◌⊎◌, inl, inr, ◌+◌, Bool, true, false, not, ◌&&◌, ◌||◌, String, List, [], ◌∷◌,
  Option, none, some, ℤ, pos, negsuc, if◌then◌else◌, ltb, ◌==◌, nat_eq, string_eq,
}
use nodux.Dict.{lookup}

-- `strings.ToLower`, `strings.Cut(_, ":")` and `strconv.Atoi`, with `none` for what is not found.
pub record Parsers : Type 0 where
  pub to_lower : String → String
  pub cut : String → Option (String × String)
  pub atoi : String → Option ℤ

-- `now.Date()`, `time.Date` with a day, an hour and a minute, `Weekday` and `AddDate(0, 0, -n)`.
pub record Calendar : Type 0 where
  pub day_of : ℕ → ℕ
  pub date : ℕ → ℕ → ℕ → ℕ
  pub weekday : ℕ → ℕ
  pub days_before : ℕ → ℕ → ℕ

pub record Schedule : Type 0 where
  pub weekly : Bool
  pub weekday : ℕ
  pub hour : ℕ
  pub minute : ℕ

pub data ScheduleError : Type 0 where
  bad_every bad_at bad_weekday : String → ScheduleError

abbrev pub weekdays : List (String × ℕ)
weekdays =
    ("sunday", 0)
    ∷ ("monday", 1)
    ∷ ("tuesday", 2)
    ∷ ("wednesday", 3)
    ∷ ("thursday", 4)
    ∷ ("friday", 5)
    ∷ ("saturday", 6)
    ∷ ("sun", 0)
    ∷ ("mon", 1)
    ∷ ("tue", 2)
    ∷ ("wed", 3)
    ∷ ("thu", 4)
    ∷ ("fri", 5)
    ∷ ("sat", 6)
    ∷ []

-- A number of `Atoi` that is not negative and at most a bound.
unfoldable pub within : ℕ → Option ℤ → Option ℕ
within most none = none
within most (some (pos n)) = if ltb most n then none else some n
within most (some (negsuc n)) = none

module _ (ps : Parsers) where
  unfoldable pub parse_at : String → Option (ℕ × ℕ)
  unfolding within
  parse_at text = elim (ps.cut text) [
    | none ↦ none
    | some (h, m) ↦ elim (within 23 (ps.atoi h)) [
      | none ↦ none
      | some hour ↦ elim (within 59 (ps.atoi m)) [ none ↦ none | some minute ↦ some (hour, minute) ]
    ]
  ]

  unfoldable pub parse_every : String → Option Bool
  parse_every every =
      if ps.to_lower every == "daily"
      then some false
      else if ps.to_lower every == "weekly"
      then some true
      else none

  -- `if s.Weekly` and what follows.
  unfoldable pub with_weekday : Bool → ℕ × ℕ → String → ScheduleError ⊎ Schedule
  with_weekday false (hour, minute) weekday =
      inr (record { weekly = false; weekday = 0; hour = hour; minute = minute })
  with_weekday true (hour, minute) weekday = elim (lookup (ps.to_lower weekday) weekdays) [
    | none ↦ inl (bad_weekday weekday)
    | some day ↦ inr (record { weekly = true; weekday = day; hour = hour; minute = minute })
  ]

  -- The first error, or the schedule.
  unfoldable pub parse_schedule : String → String → String → ScheduleError ⊎ Schedule
  unfolding parse_every parse_at with_weekday
  parse_schedule every text weekday = elim (parse_every every) [
    | none ↦ inl (bad_every every)
    | some weekly ↦ elim (parse_at text) [
      | none ↦ inl (bad_at text)
      | some time ↦ with_weekday weekly time weekday
    ]
  ]

module _ (cal : Calendar) where
  -- The negation of the condition of the loop of `Next`.
  unfoldable pub fits : Schedule → ℕ → ℕ → Bool
  fits s now next = ltb now next && (not s.weekly || cal.weekday next == s.weekday)

  -- The loop of `Next` from a day on; `none` is to run out of fuel.
  unfoldable pub search : ℕ → Schedule → ℕ → ℕ → Option ℕ
  unfolding fits
  search zero s now day =
      let next = cal.date day s.hour s.minute in if fits s now next then some next else none
  search (suc fuel) s now day =
      let next = cal.date day s.hour s.minute in
      let rest = search fuel s now (day + 1) in if fits s now next then some next else rest

  unfoldable pub next : Schedule → ℕ → Option ℕ
  unfolding search
  next s now = search 7 s now (cal.day_of now)

  unfoldable pub period : Schedule → ℕ → ℕ × ℕ
  period s t = (cal.days_before (if s.weekly then 7 else 1) t, t)

unfoldable pub title : Schedule → String
title s = if s.weekly then "Weekly digest" else "Daily digest"
