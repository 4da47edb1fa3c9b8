-- ===== src/Detector/HostOom/Tally.antt =====
-- internal/detector/hostoom.go: every kill that the counter shows is told once, or explained by the
-- event of a container.
use nodux.Base.{
  ℕ, ◌+◌, ◌-◌, ◌≤◌, not, ◌&&◌, List, [], ◌∷◌, Option, none, some, nat_eq, if◌then◌else◌, ltb,
  length,
}
use nodux.Detector.Types.{Issue, Message, literal, number}
use nodux.Detector.HostOom.{Reading, counter, OomBatch, HostOomDetector, container_oom, check}

abbrev pub total : List OomBatch → ℕ
total [] = 0
total (b ∷ bs) = b.kills + total bs

-- The kills that are counted and not yet told or explained.
abbrev pub outstanding : HostOomDetector → ℕ
outstanding d = total d.pending + d.confirmed

-- The number of kills that an alert tells of: one, unless it names a number.
abbrev told_by : Message → ℕ
told_by (literal s ∷ number n ∷ parts) = n
told_by _ = 1

abbrev pub told : Option Issue → ℕ
told none = 0
told (some i) = told_by i.message

-- The kills that a reading shows.
abbrev pub shown : Reading → HostOomDetector → ℕ
shown (counter n) d = if not d.disabled && (d.have_prev && ltb d.prev n) then n - d.prev else 0
shown _ d = 0

-- What one call leaves: nothing is told twice, and only the events that it uses up explain a kill.
abbrev Balanced : ℕ → Option Issue → HostOomDetector → HostOomDetector → Type 0
Balanced fresh out d d' =
    (told out + outstanding d' ≤ outstanding d + fresh)
    × (outstanding d + fresh + length d'.credits ≤ told out + outstanding d' + length d.credits)

-- A call of the poll loop or of the event loop, with the time of its clock.
pub data Op : Type 0 where
  checks : ℕ → Reading → Op
  events : ℕ → Op

unfoldable pub step : HostOomDetector → Op → Option Issue × HostOomDetector
step d (checks now r) = check now r d
step d (events now) = (none, container_oom now d)

-- What the alerts tell, and what the counter shows, over a row of calls.
pub record Sums : Type 0 where
  pub told_all : ℕ
  pub shown_all : ℕ
  pub event_count : ℕ
  pub final : HostOomDetector

abbrev pub shown_by : Op → HostOomDetector → ℕ
shown_by (checks now r) d = shown r d
shown_by (events now) d = 0

abbrev pub events_in : Op → ℕ
events_in (checks now r) = 0
events_in (events now) = 1

unfoldable pub run : HostOomDetector → List Op → Sums
run d [] = record { told_all = 0; shown_all = 0; event_count = 0; final = d }
run d (op ∷ ops) =
    let (out, d') = step d op in
    let rest = run d' ops in
    record {
      told_all = told out + rest.told_all;
      shown_all = shown_by op d + rest.shown_all;
      event_count = events_in op + rest.event_count;
      final = rest.final;
    }
