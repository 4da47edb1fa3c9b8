-- ===== src/Probe/Restart.antt =====
-- internal/probe/probe.go, SaveState and LoadState: what a restart keeps of a target.
use nodux.Base.{
  ◌≡◌, refl, ap, true, String, List, [], ◌∷◌, some, is_some, if◌then◌else◌, string_eq, arith, inl,
  inr, ℤ,
}
use nodux.Dict.{
  Dict, lookup, insert, retain, Distinct, over, lookup-insert, lookup-retain, Distinct-retain,
}
use nodux.Probe.{
  Target, TargetState, Prober, no_state, is_saved, save_state, load_states, load_state, new,
  new_states,
}
use nodux.Probe.Streak.{state_of, In}

lookup-load_states :
    (name : String) (saved m : Dict String TargetState)
    → Distinct saved
    → is_some (lookup name m) ≡ true
    → lookup name (load_states saved m) ≡ over (lookup name saved) (lookup name m)
unfolding load_states lookup
lookup-load_states name [] m d h = refl
lookup-load_states name ((k, st) ∷ saved) m d h = ground (
  arith,
  d.0,
  h,
  lookup-insert k name st m,
  string_eq.test_iff k name,
  lookup-load_states name saved (if is_some (lookup k m) then insert k st m else m) d.1,
)

new_states-lookup :
    (t : Target) (ts : List Target) → In t ts → lookup t.name (new_states ts) ≡ some no_state
unfolding new_states lookup
new_states-lookup t [] i = absurd i
new_states-lookup t (u ∷ us) i = elim i [
  | inl e ↦ ground (
    arith,
    lookup-insert u.name t.name no_state (new_states us),
    ap (λ v. v.name) e,
    string_eq.test_iff u.name t.name,
  )
  | inr j ↦
      ground (arith, lookup-insert u.name t.name no_state (new_states us), new_states-lookup t us j)
]

-- A restart keeps the streak and the last certificate of every target that is still configured: a new
-- prober that loads what an old one saved has the same failures in a row and the same certificate for it.
pub load_state-save_state_probe :
    (targets : List Target) (timeout failures : ℤ) (old : Prober) (t : Target)
    → Distinct old.state
    → In t targets
    → let restored =
        state_of t.name (load_state (save_state old) (new targets timeout failures)).state in
      (restored.failures ≡ (state_of t.name old.state).failures)
      × (restored.cert ≡ (state_of t.name old.state).cert)
unfolding load_state save_state new
load_state-save_state_probe targets timeout failures old t d i = ground (
  arith,
  lookup-load_states t.name (retain is_saved old.state) (new_states targets)
      (Distinct-retain is_saved old.state d),
  new_states-lookup t targets i,
  lookup-retain is_saved t.name old.state d,
)
