-- ===== src/Detector/Gate/Tests.antt =====
-- internal/detector/gate.go: three samples of a load, as the input of the instance. Whole numbers stand
-- for the floating-point ones.
use nodux.Base.{ℕ, ◌≡◌, ◌-◌, ◌/◌, ◌∷◌, [], List, refl, true, false, min, ltb, All, arith}
use nodux.Detector.Gate.{Floats, Gate, update}
use nodux.Detector.Gate.Hysteresis.{Sample, run, stayed, run-opens}

abbrev pub naturals : Floats
naturals = record {
  Float = ℕ;
  less = ltb;
  minus = λ a b. a - b;
  least = min;
  half = λ a. a / 2;
  rearm_gap = 5;
}

abbrev shut : Gate naturals
shut = record { threshold = 80; sustain = 60; above_since = 0; firing = false }

abbrev older : List (Sample naturals)
older = (130, 95) ∷ (100, 85) ∷ (70, 20) ∷ []

run-opens_example :
    (ltb 90 (run naturals shut older).threshold ≡ false)
    × All (λ s. stayed naturals 160 (run naturals shut older) s ≡ true) older
unfolding run update
run-opens_example =
    run-opens naturals shut 160 90 older
      (
        (omega arith, (omega arith, (omega arith, tt))),
        ((omega arith, (omega arith, tt)), ((omega arith, tt), (tt, tt))),
      )
      refl refl
