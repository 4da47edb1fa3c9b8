-- ===== src/Detector/Memory/Restart.antt =====
-- internal/detector/memory.go: an episode over a restart.
use nodux.Base.{
  ℕ, ◌≡◌, refl, ap, ap₂, sym, ◌∙◌, true, false, not, any, All, String, [], ◌∷◌, Option, none, some,
  if◌then◌else◌, string_eq, or_else, is_zero, arith,
}
use nodux.Dict.{Dict, lookup, insert, Distinct, lookup-insert}
use nodux.Detector.Types.{Issue, ContainerSnapshot}
use nodux.Detector.Labels.{Parsers}
use nodux.Detector.Gate.{Floats, Gate, update, close_at}
use nodux.Detector.Memory.{
  Percents, MemoryDetector, SavedGate, new, saved_gates, save_state, restored_gate, load_gates,
  load_state, check, check_stopped, check_gate, gate_issue, new_gate,
}

module _ (fl : Floats) where
  -- The gate that a restart finds in place of one.
  abbrev kept_gate : Option (Gate fl) → Option (SavedGate fl)
  kept_gate none = none
  kept_gate (some g) =
      if g.firing then some (record { threshold = g.threshold; sustain = g.sustain }) else none

  abbrev found : Option (SavedGate fl) → Option (Gate fl) → Option (Gate fl)
  found none o = o
  found (some sv) o = some (restored_gate fl sv)

  lookup-saved_gates :
      (id : String) (m : Dict String (Gate fl))
      → Distinct m
      → lookup id (saved_gates fl m) ≡ kept_gate (lookup id m)
  unfolding saved_gates lookup
  lookup-saved_gates id [] d = refl
  lookup-saved_gates id ((k, g) ∷ m) d =
      ground (
        arith,
        d.0,
        lookup-saved_gates id m d.1,
        lookup-saved_gates k m d.1,
        string_eq.test_iff k id,
      )

  Distinct-saved_gates : (m : Dict String (Gate fl)) → Distinct m → Distinct (saved_gates fl m)
  unfolding saved_gates
  Distinct-saved_gates [] d = tt
  Distinct-saved_gates ((k, g) ∷ m) d =
      ground (arith, d.0, lookup-saved_gates k m d.1, Distinct-saved_gates m d.1)

  lookup-load_gates :
      (id : String) (saved : Dict String (SavedGate fl)) (m : Dict String (Gate fl))
      → Distinct saved
      → lookup id (load_gates fl saved m) ≡ found (lookup id saved) (lookup id m)
  unfolding load_gates lookup
  lookup-load_gates id [] m d = refl
  lookup-load_gates id ((k, sv) ∷ saved) m d = ground (
    arith,
    d.0,
    lookup-load_gates id saved (insert k (restored_gate fl sv) m) d.1,
    lookup-insert k id (restored_gate fl sv) m,
    string_eq.test_iff k id,
  )

  -- The gate that a restart makes of a firing one.
  abbrev again : Gate fl → Gate fl
  again g = restored_gate fl (record { threshold = g.threshold; sustain = g.sustain })

  -- A firing gate goes on the same from zero.
  update-restored :
      (now : ℕ) (value : fl.Float) (g : Gate fl)
      → g.firing ≡ true
      → ((update fl now value (again g)).firing ≡ (update fl now value g).firing)
        × ((update fl now value (again g)).sustain ≡ (update fl now value g).sustain)
  unfolding update close_at
  update-restored now value g f = ground (arith, f)

  module _ (pc : Percents fl) (ps : Parsers) where
    check_gate-restored :
        (now : ℕ) (s : ContainerSnapshot) (g : Gate fl) (d d' : MemoryDetector fl)
        → g.firing ≡ true
        → (check_gate fl pc ps now s (again g) d').0 ≡ (check_gate fl pc ps now s g d).0
    unfolding check_gate
    check_gate-restored now s g d d' f =
        ap₂ (gate_issue fl pc ps now s (pc.percent s.memory_used s.memory_limit))
          (update-restored now (pc.percent s.memory_used s.memory_limit) g f).0
          (update-restored now (pc.percent s.memory_used s.memory_limit) g f).1

    -- A check, for what is found under the container's identifier.
    abbrev check_found : ℕ → ContainerSnapshot → MemoryDetector fl → Option (Gate fl) → Option Issue
    check_found now s d o =
        (if is_zero s.memory_limit
          then check_stopped fl pc ps now s o d
          else check_gate fl pc ps now s (or_else o (new_gate fl pc ps s.labels d)) d).0

    check_found-restored :
        (now : ℕ) (s : ContainerSnapshot) (g : Gate fl) (d d' : MemoryDetector fl)
        → g.firing ≡ true
        → check_found now s d' (some (again g)) ≡ check_found now s d (some g)
    unfolding check_stopped
    check_found-restored now s g d d' f = ground (arith, f, check_gate-restored now s g d d' f)

    -- The numbers of the firing gates can be encoded.
    abbrev pub Encodes : Dict String (Gate fl) → Type 0
    Encodes m = All (λ e. e.1.firing ≡ true → pc.encodes e.1.threshold ≡ true) m

    -- A new detector, after it has loaded what was saved, if that went well.
    abbrev pub restarted :
        Option (Dict String (SavedGate fl)) → MemoryDetector fl → MemoryDetector fl
    restarted none d = d
    restarted (some saved) d = load_state fl saved d

    encodes-saved_gates :
        (m : Dict String (Gate fl))
        → Encodes m
        → any (λ (e : String × SavedGate fl). not (pc.encodes e.1.threshold)) (saved_gates fl m)
          ≡ false
    unfolding saved_gates any
    encodes-saved_gates [] h = refl
    encodes-saved_gates ((k, g) ∷ m) h = ground (arith, h.0, encodes-saved_gates m h.1)

    save_state-some :
        (d : MemoryDetector fl)
        → Encodes d.state
        → save_state fl pc d ≡ some (saved_gates fl d.state)
    unfolding save_state
    save_state-some d h = rw (encodes-saved_gates d.state h)

    -- A restart neither repeats nor ends the alert of a container: with its gate firing, and thresholds of
    -- firing gates that JSON can encode, a detector that has loaded what the old one saved answers the next
    -- check of the container, running or stopped, as the old one would.
    pub check-load_state :
        (threshold : fl.Float) (sustain now : ℕ) (s : ContainerSnapshot) (g : Gate fl)
        (d : MemoryDetector fl)
        → Distinct d.state
        → Encodes d.state
        → lookup s.id d.state ≡ some g
        → g.firing ≡ true
        → (check fl pc ps now s (restarted (save_state fl pc d) (new fl threshold sustain))).0
          ≡ (check fl pc ps now s d).0
    unfolding check load_state new lookup
    check-load_state threshold sustain now s g d dist enc l f =
        let loaded = load_state fl (saved_gates fl d.state) (new fl threshold sustain) in
        let held : lookup s.id loaded.state ≡ some (again g) =
          lookup-load_gates s.id (saved_gates fl d.state) [] (Distinct-saved_gates d.state dist)
          ∙ ap (λ o. found o none)
              (lookup-saved_gates s.id d.state dist
                ∙ ap kept_gate l
                ∙ ap
                    (λ b.
                      if b
                      then some (record { threshold = g.threshold; sustain = g.sustain })
                      else none)
                    f) in
        ap (λ o. (check fl pc ps now s (restarted o (new fl threshold sustain))).0)
          (save_state-some d enc)
        ∙ ap (check_found now s loaded) held
        ∙ check_found-restored now s g d loaded f
        ∙ sym (ap (check_found now s d) l)
