-- ===== src/Detector/CrashLoop/Restore.antt =====
-- internal/detector/crashloop.go: what a restart of the program keeps of the detector.
use nodux.Base.{
  ℕ, ◌≡◌, refl, ◌∙◌, false, ◌||◌, String, [], ◌∷◌, Option, none, some, string_eq, is_zero, arith,
}
use nodux.Dict.{Dict, lookup, insert, Distinct, over, lookup-insert, lookup-overlay}
use nodux.Detector.CrashLoop.{
  CrashLoopState, CrashLoopDetector, new, all_some, save_state, load_states, load_state,
}

-- The states that the detector makes have a positive threshold and window.
abbrev pub AllPositive : Dict String CrashLoopState → Type 0
AllPositive [] = Unit
AllPositive ((id, st) ∷ m) = ((is_zero st.threshold || is_zero st.window) ≡ false) × AllPositive m

lookup-load_states :
    (id : String) (m n : Dict String CrashLoopState)
    → Distinct m
    → AllPositive m
    → lookup id (load_states (all_some m) n) ≡ over (lookup id m) (lookup id n)
unfolding load_states lookup
lookup-load_states id [] n d p = refl
lookup-load_states id ((i, st) ∷ m) n d p = ground (
  arith,
  string_eq.test_iff i id,
  p.0,
  lookup-load_states id m (insert i st n) d.1 p.1,
  lookup-insert i id st n,
)

over-none : {V : Type 0} (o : Option V) → over o none ≡ o
over-none none = refl
over-none (some v) = refl

-- A new detector that loads what another one saved knows the same stop requests, crashes and restarts
-- of every container, whatever its own settings. The maps have each key once, and the thresholds
-- and windows are positive.
pub lookup-load_state :
    (d : CrashLoopDetector) (threshold window : ℕ) (id : String)
    → Distinct d.stops
    → Distinct d.crashed
    → Distinct d.state
    → AllPositive d.state
    → (lookup id (load_state (save_state d) (new threshold window)).stops ≡ lookup id d.stops)
      × (lookup id (load_state (save_state d) (new threshold window)).crashed ≡ lookup id d.crashed)
      × (lookup id (load_state (save_state d) (new threshold window)).state ≡ lookup id d.state)
unfolding load_state save_state new lookup
lookup-load_state d threshold window id s c t p = (
  lookup-overlay id d.stops [] s ∙ over-none _,
  lookup-overlay id d.crashed [] c ∙ over-none _,
  lookup-load_states id d.state [] t p ∙ over-none _,
)
