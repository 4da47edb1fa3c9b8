-- ===== src/Detector/Gate/Hysteresis.antt =====
-- internal/detector/gate.go: what a gate has seen when it opens, and what keeps it open.
use nodux.Base.{
  ℕ, ◌≡◌, ◌+◌, ◌<◌, Bool, true, false, not, ◌||◌, List, [], ◌∷◌, ltb, leb, is_zero, All, arith,
}
use nodux.Detector.Gate.{Floats, Gate, update}

module _ (fl : Floats) where
  abbrev pub Sample : Type 0
  Sample = ℕ × fl.Float

  -- The gate after samples, the newest first.
  unfoldable pub run : Gate fl → List Sample → Gate fl
  run g [] = g
  run g ((now, value) ∷ older) = update fl now value (run g older)

  -- The clock moves on from sample to sample.
  abbrev pub Timed : List Sample → Type 0
  Timed [] = Unit
  Timed ((now, value) ∷ older) = All (λ s. s.0 < now) older × Timed older

  -- A sample is not below the threshold, or comes before the stretch that the gate measures.
  abbrev Measured : Gate fl → Sample → Type 0
  Measured g s =
      (g.firing || is_zero g.above_since || ltb s.0 g.above_since || not (fl.less s.1 g.threshold))
      ≡ true

  -- In the last `sustain` before a time, a sample was not below the threshold.
  abbrev pub stayed : ℕ → Gate fl → Sample → Bool
  stayed now g s = leb (s.0 + g.sustain) now || not (fl.less s.1 g.threshold)

  update-Measured :
      (now : ℕ) (value : fl.Float) (g : Gate fl) (s : Sample)
      → s.0 < now
      → Measured g s
      → Measured (update fl now value g) s
  unfolding update
  update-Measured now value g s lt m = ground (arith, lt, m)

  newest-Measured :
      (now : ℕ) (value : fl.Float) (g : Gate fl) → Measured (update fl now value g) (now, value)
  unfolding update
  newest-Measured now value g = ground arith

  update-options :
      (now : ℕ) (value : fl.Float) (g : Gate fl)
      → ((update fl now value g).threshold ≡ g.threshold)
        × ((update fl now value g).sustain ≡ g.sustain)
  unfolding update
  update-options now value g = (ground arith, ground arith)

  All-Measured :
      (now : ℕ) (value : fl.Float) (g : Gate fl) (samples : List Sample)
      → All (λ s. s.0 < now) samples
      → All (Measured g) samples
      → All (Measured (update fl now value g)) samples
  All-Measured now value g [] b m = tt
  All-Measured now value g (s ∷ samples) b m =
      (update-Measured now value g s b.0 m.0, All-Measured now value g samples b.1 m.1)

  run-Measured :
      (g : Gate fl) (samples : List Sample) → Timed samples → All (Measured (run g samples)) samples
  unfolding run
  run-Measured g [] t = tt
  run-Measured g ((now, value) ∷ older) t = (
    newest-Measured now value (run g older),
    All-Measured now value (run g older) older t.0 (run-Measured g older t.1),
  )

  opens-stayed :
      (now : ℕ) (value : fl.Float) (g : Gate fl) (s : Sample)
      → g.firing ≡ false
      → (update fl now value g).firing ≡ true
      → s.0 < now
      → Measured g s
      → stayed now g s ≡ true
  unfolding update
  opens-stayed now value g s shut opens lt m = ground (arith, shut, opens, lt, m)

  All-stayed :
      (now : ℕ) (value : fl.Float) (g : Gate fl) (samples : List Sample)
      → g.firing ≡ false
      → (update fl now value g).firing ≡ true
      → All (λ s. s.0 < now) samples
      → All (Measured g) samples
      → All (λ s. stayed now g s ≡ true) samples
  All-stayed now value g [] shut opens b m = tt
  All-stayed now value g (s ∷ samples) shut opens b m = (
    opens-stayed now value g s shut opens b.0 m.0,
    All-stayed now value g samples shut opens b.1 m.1,
  )

  opens-above :
      (now : ℕ) (value : fl.Float) (g : Gate fl)
      → g.firing ≡ false
      → (update fl now value g).firing ≡ true
      → fl.less value g.threshold ≡ false
  unfolding update
  opens-above now value g shut opens = ground (arith, shut, opens)

  -- When a gate opens, no sample of the last `sustain` was below the threshold, the newest included.
  -- The clock moves on from sample to sample.
  pub run-opens :
      (g : Gate fl) (now : ℕ) (value : fl.Float) (older : List Sample)
      → Timed ((now, value) ∷ older)
      → (run g older).firing ≡ false
      → (run g ((now, value) ∷ older)).firing ≡ true
      → (fl.less value (run g older).threshold ≡ false)
        × All (λ s. stayed now (run g older) s ≡ true) older
  unfolding run
  run-opens g now value older t shut opens = (
    opens-above now value (run g older) shut opens,
    All-stayed now value (run g older) older shut opens t.0 (run-Measured g older t.1),
  )
