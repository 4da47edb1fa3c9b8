-- ===== src/Detector/Memory.antt =====
-- internal/detector/memory.go, and labelPercent of internal/detector/labels.go. The floating-point numbers are
-- those of the gate, with what this code does with them besides.
pub mod Restart
pub mod Tests
use nodux.Base.{
  ℕ, ◌+◌, Bool, true, false, not, ◌&&◌, ◌||◌, String, List, [], ◌∷◌, ◌++◌, Option, none, some,
  if◌then◌else◌, any, ltb, ◌==◌, string_eq, or_else, is_zero, zero_time,
}
use nodux.Dict.{Dict, lookup, insert, delete}
use nodux.Detector.Types.{
  Issue, Labels, Message, ContainerSnapshot, no_issue, severity_warning, literal, duration, size,
  printed,
}
use nodux.Detector.Labels.{Parsers, label_duration}
use nodux.Detector.Gate.{Floats, Gate, update}

-- A division times 100, `strconv.ParseFloat` after `strings.TrimSuffix(_, "%")`, the comparisons with 0 and
-- 100, `%.0f`, and whether `json.Marshal` takes the number: it refuses NaN and the infinities.
pub record Percents (fl : Floats) : Type 0 where
  pub percent : ℕ → ℕ → fl.Float
  pub parse_percent : String → Option fl.Float
  pub at_most_zero : fl.Float → Bool
  pub over_hundred : fl.Float → Bool
  pub print : fl.Float → String
  pub encodes : fl.Float → Bool

pub record SavedGate (fl : Floats) : Type 0 where
  pub threshold : fl.Float
  pub sustain : ℕ

pub record MemoryDetector (fl : Floats) : Type 0 where
  pub threshold : fl.Float
  pub sustain : ℕ
  pub state : Dict String (Gate fl)

module _ (fl : Floats) where
  unfoldable pub new : fl.Float → ℕ → MemoryDetector fl
  new threshold sustain = record { threshold = threshold; sustain = sustain; state = [] }

  unfoldable pub issue : ℕ → ContainerSnapshot → Message → Issue
  issue now s msg = record no_issue {
    detector = "memory";
    severity = severity_warning;
    message = msg;
    container = s;
    detected_at = now;
  }

  unfoldable pub forget : String → MemoryDetector fl → MemoryDetector fl
  forget id d = record d { state = delete id d.state }

  -- The loop over the gates of `SaveState`.
  unfoldable pub saved_gates : Dict String (Gate fl) → Dict String (SavedGate fl)
  saved_gates [] = []
  saved_gates ((id, g) ∷ m) =
      if g.firing
      then (id, record { threshold = g.threshold; sustain = g.sustain }) ∷ saved_gates m
      else saved_gates m

  abbrev pub restored_gate : SavedGate fl → Gate fl
  restored_gate sv = record {
    threshold = sv.threshold;
    sustain = sv.sustain;
    above_since = zero_time;
    firing = true;
  }

  unfoldable pub load_gates :
      Dict String (SavedGate fl) → Dict String (Gate fl) → Dict String (Gate fl)
  load_gates [] m = m
  load_gates ((id, sv) ∷ saved) m = load_gates saved (insert id (restored_gate sv) m)

  unfoldable pub load_state : Dict String (SavedGate fl) → MemoryDetector fl → MemoryDetector fl
  unfolding load_gates
  load_state saved d = record d { state = load_gates saved d.state }

  -- One number that cannot be encoded fails the whole map: `none` is the error.
  unfoldable pub save_state : Percents fl → MemoryDetector fl → Option (Dict String (SavedGate fl))
  unfolding saved_gates
  save_state pc d =
      let saved = saved_gates d.state in
      if any (λ (e : String × SavedGate fl). not (pc.encodes e.1.threshold)) saved
      then none
      else some saved

  module _ (pc : Percents fl) (ps : Parsers) where
    unfoldable pub label_percent : Labels → String → Option fl.Float
    label_percent labels key = elim (lookup key labels) [
      | none ↦ none
      | some raw ↦ elim (pc.parse_percent (ps.trim_space raw)) [
        | none ↦ none
        | some v ↦ if pc.at_most_zero v || pc.over_hundred v then none else some v
      ]
    ]

    -- The gate of a container that has none yet.
    unfoldable pub new_gate : Labels → MemoryDetector fl → Gate fl
    unfolding label_percent label_duration
    new_gate labels d = record {
      threshold = or_else (label_percent labels "nodux.memory.threshold") d.threshold;
      sustain = or_else (label_duration ps labels "nodux.memory.for") d.sustain;
      above_since = zero_time;
      firing = false;
    }

    -- A container that has no statistics.
    unfoldable pub check_stopped :
        ℕ
        → ContainerSnapshot
        → Option (Gate fl)
        → MemoryDetector fl
        → Option Issue × MemoryDetector fl
    unfolding issue
    check_stopped now s none d = (none, record d { state = delete s.id d.state })
    check_stopped now s (some g) d =
        if g.firing && not (s.status == "running")
        then (
          some (issue now s (literal "memory limit reached before the container stopped" ∷ [])),
          d,
        )
        else (none, record d { state = delete s.id d.state })

    -- The alert of a gate that fires, after a sample.
    unfoldable pub gate_issue : ℕ → ContainerSnapshot → fl.Float → Bool → ℕ → Option Issue
    unfolding issue
    gate_issue now s pct firing sustain =
        if firing
        then some (
            issue now s (
              literal "memory at "
              ∷ printed (pc.print pct)
              ∷ literal "% of limit ("
              ∷ size s.memory_used
              ∷ literal " / "
              ∷ size s.memory_limit
              ∷ literal ")"
              ∷ (if ltb 0 sustain then literal " for at least " ∷ duration sustain ∷ [] else [])))
        else none

    -- A container with a limit, and its gate.
    unfoldable pub check_gate :
        ℕ → ContainerSnapshot → Gate fl → MemoryDetector fl → Option Issue × MemoryDetector fl
    unfolding gate_issue update
    check_gate now s g d =
        let pct = pc.percent s.memory_used s.memory_limit in
        let g' = update fl now pct g in
        (gate_issue now s pct g'.firing g'.sustain, record d { state = insert s.id g' d.state })

    -- One call reads the clock once, as `now`.
    unfoldable pub check :
        ℕ → ContainerSnapshot → MemoryDetector fl → Option Issue × MemoryDetector fl
    unfolding check_stopped check_gate new_gate
    check now s d =
        if is_zero s.memory_limit
        then check_stopped now s (lookup s.id d.state) d
        else check_gate now s (or_else (lookup s.id d.state) (new_gate s.labels d)) d
