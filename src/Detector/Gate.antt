-- ===== src/Detector/Gate.antt =====
-- internal/detector/gate.go: the gate with hysteresis. The floating-point numbers are a parameter, as
-- the operations on them that the code uses.
pub mod Hysteresis
pub mod Tests
use nodux.Base.{ℕ, ◌+◌, Bool, true, false, if◌then◌else◌, leb, is_zero, zero_time}

-- `float64`: the order, a subtraction, the least of two, the half and the constants.
pub record Floats : Type 1 where
  pub Float : Type 0
  pub less : Float → Float → Bool
  pub minus : Float → Float → Float
  pub least : Float → Float → Float
  pub half : Float → Float
  pub rearm_gap : Float

module _ (fl : Floats) where
  pub record Gate : Type 0 where
    pub threshold : fl.Float
    pub sustain : ℕ
    pub above_since : ℕ
    pub firing : Bool

  -- Where a firing gate closes.
  unfoldable pub close_at : Gate → fl.Float
  close_at g = fl.minus g.threshold (fl.least fl.rearm_gap (fl.half g.threshold))

  unfoldable pub update : ℕ → fl.Float → Gate → Gate
  update now value g =
      if g.firing
      then (if fl.less value (close_at g)
          then record g { firing = false; above_since = zero_time }
          else g)
      else if fl.less value g.threshold
      then record g { above_since = zero_time }
      else (let since = (if is_zero g.above_since then now else g.above_since) in
          record g { above_since = since; firing = leb (since + g.sustain) now })
