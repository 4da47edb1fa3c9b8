-- ===== src/Probe/Streak.antt =====
-- internal/probe/probe.go, Check: when a target is reported.
use nodux.Base.{
  Option, ℕ, suc, ◌≡◌, ◌≢◌, ◌⊎◌, refl, ap, sym, subst, ◌∙◌, ◌+◌, ◌<◌, ℤ, pos, negsuc, positive,
  Bool, false, ◌&&◌, ◌||◌, String, List, [], ◌∷◌, any, none, some, inl, inr, or_else, if◌then◌else◌,
  leb, ◌==◌, ==_refl, string_eq, differ_iff, is_some, All, arith,
}
use nodux.Dict.{Dict, lookup, insert, lookup-insert}
use nodux.Detector.Types.{Issue}
use nodux.Probe.{
  Url, Target, Prober, Config, TargetState, Probed, no_state, update_state, probe_issue,
  check_target, check_targets, check, new, new_states,
}

-- How many of the last probes of a target failed in a row; the newest is the first.
abbrev pub streak : Target → List (Target → Probed) → ℕ
streak t [] = 0
streak t (probe ∷ older) = if is_some (probe t).err then suc (streak t older) else 0

abbrev pub state_of : String → Dict String TargetState → TargetState
state_of name m = or_else (lookup name m) no_state

-- The name of a target is not that of another.
abbrev pub AreNamed : List Target → Type 0
AreNamed [] = Unit
AreNamed (t ∷ ts) = All (λ u. u.name ≢ t.name) ts × AreNamed ts

-- A target is one of those of a list.
abbrev pub In : Target → List Target → Type 0
In t [] = ⊥
In t (u ∷ us) = (u ≡ t) ⊎ In t us

All-In : (P : Target → Type 0) (t : Target) (ts : List Target) → All P ts → In t ts → P t
All-In P t [] h i = absurd i
All-In P t (u ∷ us) h i = elim i [ inl e ↦ subst P e h.0 | inr j ↦ All-In P t us h.1 j ]

abbrev pub reported : String → List Issue → Bool
reported name issues = any (λ i. i.resource == name) issues

state_of-insert :
    (key name : String) (st : TargetState) (m : Dict String TargetState)
    → state_of name (insert key st m) ≡ (if key == name then st else state_of name m)
state_of-insert key name st m = ground (arith, lookup-insert key name st m)

module _ (parse_url : String → Option Url) where
  -- The state after some checks at a time, the newest first.
  abbrev pub run : ℕ → Prober → List (Target → Probed) → Prober
  run now p [] = p
  run now p (probe ∷ older) = (check parse_url now probe (run now p older)).1

  -- Whether a turn of the loop reports its target.
  turn_reports :
      (now : ℕ) (cfg : Config) (t : Target) (r : Probed) (st : TargetState) (name : String)
      (issues : List Issue)
      → reported name
          (elim (check_target parse_url now cfg t r st) [ none ↦ issues | some i ↦ i ∷ issues ])
        ≡ ((is_some r.err && leb cfg.failures (st.failures + 1)) && (t.name == name)
            || reported name issues)
  unfolding check_target probe_issue any update_state
  turn_reports now cfg t r st name issues = ground arith

  -- The targets whose names are others leave a state alone.
  others_kept :
      (now : ℕ) (cfg : Config) (probe : Target → Probed) (name : String) (ts : List Target)
      (m : Dict String TargetState)
      → All (λ u. u.name ≢ name) ts
      → (state_of name (check_targets parse_url now cfg probe ts m).1 ≡ state_of name m)
        × (reported name (check_targets parse_url now cfg probe ts m).0 ≡ false)
  unfolding check_targets any
  others_kept now cfg probe name [] m h = (refl, refl)
  others_kept now cfg probe name (t ∷ ts) m h =
      let st : TargetState = update_state (probe t) (state_of t.name m) in
      let rest = others_kept now cfg probe name ts (insert t.name st m) h.1 in
      let other : (t.name == name) ≡ false = (differ_iff t.name name).1 h.0 in
      (
        rest.0
            ∙ state_of-insert t.name name st m
            ∙ ap (λ b. if b then st else state_of name m) other,
        turn_reports now cfg t (probe t) (state_of t.name m) name _ ∙ ground (arith, other, rest.1),
      )

  -- What one check does for a target.
  abbrev Counted :
      ℕ → Config → (Target → Probed) → List Target → Dict String TargetState → Target → Type 0
  Counted now cfg probe ts m t =
      (state_of t.name (check_targets parse_url now cfg probe ts m).1
        ≡ update_state (probe t) (state_of t.name m))
      × (reported t.name (check_targets parse_url now cfg probe ts m).0
          ≡ (is_some (probe t).err && leb cfg.failures ((state_of t.name m).failures + 1)))

  check_targets-Counted_first :
      (now : ℕ) (cfg : Config) (probe : Target → Probed) (t : Target) (ts : List Target)
      (m : Dict String TargetState)
      → All (λ u. u.name ≢ t.name) ts
      → Counted now cfg probe (t ∷ ts) m t
  unfolding check_targets
  check_targets-Counted_first now cfg probe t ts m h =
      let st : TargetState = update_state (probe t) (state_of t.name m) in
      let rest = others_kept now cfg probe t.name ts (insert t.name st m) h in
      (
        rest.0
            ∙ state_of-insert t.name t.name st m
            ∙ ap (λ b. if b then st else state_of t.name m) (==_refl t.name),
        turn_reports now cfg t (probe t) (state_of t.name m) t.name _
            ∙ ground (arith, ==_refl t.name, rest.1),
      )

  check_targets-Counted :
      (now : ℕ) (cfg : Config) (probe : Target → Probed) (t : Target) (ts : List Target)
      (m : Dict String TargetState)
      → AreNamed ts
      → In t ts
      → Counted now cfg probe ts m t
  unfolding check_targets
  check_targets-Counted now cfg probe t [] m d i = absurd i
  check_targets-Counted now cfg probe t (u ∷ us) m d i = elim i [
    | inl e ↦
        subst (Counted now cfg probe (u ∷ us) m) e
          (check_targets-Counted_first now cfg probe u us m d.0)
    | inr j ↦
        (let st : TargetState = update_state (probe u) (state_of u.name m) in
          let rest = check_targets-Counted now cfg probe t us (insert u.name st m) d.1 j in
          let other : (u.name == t.name) ≡ false =
            (differ_iff u.name t.name).1 (λ e. All-In (λ v. v.name ≢ u.name) t us d.0 j (sym e)) in
          let same : state_of t.name (insert u.name st m) ≡ state_of t.name m =
            state_of-insert u.name t.name st m
            ∙ ap (λ b. if b then st else state_of t.name m) other in
          (
            rest.0 ∙ ap (update_state (probe t)) same,
            turn_reports now cfg u (probe u) (state_of u.name m) t.name _
                ∙ ground (arith, other, rest.1, same),
          ))
  ]

  run-cfg :
      (now : ℕ) (p : Prober) (rounds : List (Target → Probed)) → (run now p rounds).cfg ≡ p.cfg
  unfolding check
  run-cfg now p [] = refl
  run-cfg now p (probe ∷ older) = run-cfg now p older

  run-Counted :
      (now : ℕ) (p : Prober) (probe : Target → Probed) (older : List (Target → Probed)) (t : Target)
      → AreNamed p.cfg.targets
      → In t p.cfg.targets
      → Counted now p.cfg probe p.cfg.targets (run now p older).state t
  run-Counted now p probe older t d i =
      check_targets-Counted now p.cfg probe t p.cfg.targets (run now p older).state d i

  update_failures :
      (r : Probed) (st : TargetState)
      → (update_state r st).failures ≡ (if is_some r.err then suc st.failures else 0)
  unfolding update_state
  update_failures r st = ground arith

  failures-streak :
      (now : ℕ) (p : Prober) (rounds : List (Target → Probed)) (t : Target)
      → AreNamed p.cfg.targets
      → In t p.cfg.targets
      → (state_of t.name p.state).failures ≡ 0
      → (state_of t.name (run now p rounds).state).failures ≡ streak t rounds
  unfolding check update_state
  failures-streak now p [] t d i e = e
  failures-streak now p (probe ∷ older) t d i e =
      ap
        (λ (cfg : Config).
          (state_of t.name
            (check_targets parse_url now cfg probe cfg.targets (run now p older).state).1).failures)
        (run-cfg now p older)
      ∙ ap (λ st. st.failures) (run-Counted now p probe older t d i).0
      ∙ update_failures (probe t) (state_of t.name (run now p older).state)
      ∙ ap (λ n. if is_some (probe t).err then suc n else 0) (failures-streak now p older t d i e)

  new_states-failures :
      (name : String) (ts : List Target) → (state_of name (new_states ts)).failures ≡ 0
  unfolding new_states lookup
  new_states-failures name [] = refl
  new_states-failures name (t ∷ ts) =
      ground
        (arith, state_of-insert t.name name no_state (new_states ts), new_states-failures name ts)

  limit-positive : (failures : ℤ) → 0 < or_else (positive failures) 1
  limit-positive (pos n) = ground arith
  limit-positive (negsuc n) = omega arith

  -- For a prober of targets with different names: after any checks, the next one reports a target exactly
  -- if it failed now and in the checks before in as many in a row as are configured, or at all where none
  -- are configured.
  pub check-reported-streak :
      (targets : List Target) (timeout failures : ℤ) (now : ℕ) (probe : Target → Probed)
      (older : List (Target → Probed)) (t : Target)
      → AreNamed targets
      → In t targets
      → reported t.name (check parse_url now probe (run now (new targets timeout failures) older)).0
        ≡ leb (or_else (positive failures) 1) (streak t (probe ∷ older))
  unfolding check new
  check-reported-streak targets timeout failures now probe older t d i =
      let p : Prober = new targets timeout failures in
      ap
        (λ (cfg : Config).
          reported t.name
            (check_targets parse_url now cfg probe cfg.targets (run now p older).state).0)
        (run-cfg now p older)
      ∙ (run-Counted now p probe older t d i).1
      ∙ ground (
        arith,
        failures-streak now p older t d i (new_states-failures t.name targets),
        limit-positive failures,
      )
