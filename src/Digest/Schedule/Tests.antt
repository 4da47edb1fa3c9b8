-- ===== src/Digest/Schedule/Tests.antt =====
-- internal/digest/schedule.go on a calendar of minutes, with days of 24 hours.
use nodux.Base.{
  ◌≡◌, refl, inr, ◌+◌, ◌-◌, ◌*◌, ◌/◌, ◌%◌, none, some, pos, ◌==◌, string_eq, true, if◌then◌else◌,
  arith,
}
use nodux.Dict.{lookup}
use nodux.Digest.Schedule.{
  Parsers, Calendar, Schedule, parse_schedule, parse_every, parse_at, with_weekday, within, next,
  search, fits,
}
use nodux.Digest.Schedule.Next.{IsCalendar, IsFirst}
use nodux.Digest.Schedule.Accepted.{IsTime, parse_schedule-next}

abbrev parsers : Parsers
parsers = record {
  to_lower = λ s. s;
  cut = λ s. if s == "09:30" then some ("09", "30") else none;
  atoi = λ s. if s == "09" then some (pos 9) else if s == "30" then some (pos 30) else none;
}

abbrev minutes : Calendar
minutes = record {
  day_of = λ t. t / 1440;
  date = λ d h m. d * 1440 + h * 60 + m;
  weekday = λ t. (t / 1440) % 7;
  days_before = λ n t. t - n * 1440;
}

minutes-IsCalendar : IsCalendar minutes
minutes-IsCalendar = record {
  later = λ d h m. omega arith;
  tomorrow = λ now h m. omega arith;
  week = λ d h m. omega arith;
}

abbrev weekly : Schedule
weekly = record { weekly = true; weekday = 3; hour = 9; minute = 30 }

accepted : parse_schedule parsers "weekly" "09:30" "wed" ≡ inr weekly
unfolding parse_schedule parse_every parse_at with_weekday within lookup
accepted = refl

next_wednesday : next minutes weekly 1 ≡ some (3 * 1440 + 570)
unfolding next search fits
next_wednesday = refl

parse_schedule-next_example :
    IsTime (inr weekly) × IsFirst minutes weekly 1 (minutes.day_of 1) 7 (next minutes weekly 1)
parse_schedule-next_example =
    parse_schedule-next parsers minutes minutes-IsCalendar "weekly" "09:30" "wed" weekly 1 accepted
