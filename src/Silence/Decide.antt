-- ===== src/Silence/Decide.antt =====
-- internal/silence/silence.go: what `Silenced` decides, against what the documentation promises.
use nodux.Base.{
  ℕ, ◌≡◌, ◌≢◌, refl, ◌↔◌, ◌<◌, ◌⊎◌, inl, inr, Bool, true, false, not, ◌&&◌, ◌||◌, String, [], ◌∷◌,
  Option, none, some, arith, string_eq, ==_refl, is_empty, is_some, Bool-cases,
}
use nodux.Dict.{Dict, lookup, retain, Distinct, kept, lookup-retain, Distinct-retain}
use nodux.Silence.{
  Store, Silence, Subject, WindowKey, key_eq, matches, first_match, decide, silenced, prune,
  container_scope, project_scope, lasts,
}

-- A window of this name is open.
abbrev pub IsOpen : ℕ → WindowKey → Store → Type 0
IsOpen now k st = (until : ℕ) × (lookup k st.windows ≡ some until) × (now < until)

module _ (path_match : String → String → Option Bool) where
  -- A silence that has not ended selects the subject.
  abbrev pub IsSelected : ℕ → Subject → Store → Type 0
  IsSelected now s st =
      (id : String) × (sil : Silence) × (lookup id st.silences ≡ some sil)
      × (now < sil.until)
      × (matches path_match sil.matcher s ≡ true)

  -- An ongoing problem in an open deploy window, or any problem that a silence selects.
  abbrev pub IsSilenced : ℕ → Subject → Store → Type 0
  IsSilenced now s st =
      ((s.one_off ≡ false) × (s.container ≢ "") × IsOpen now (container_scope, s.container) st)
      ⊎ ((s.one_off ≡ false) × (s.project ≢ "") × IsOpen now (project_scope, s.project) st)
      ⊎ IsSelected now s st

  first_match-lookup :
      (s : Subject) (m : Dict String Silence)
      → Distinct m
      → is_some (first_match path_match s m) ≡ true
      → (id : String) × (sil : Silence) × (lookup id m ≡ some sil)
        × (matches path_match sil.matcher s ≡ true)
  unfolding first_match lookup
  first_match-lookup s [] d h = absurd (cc h)
  first_match-lookup s ((i, w) ∷ m) d h = elim (Bool-cases (matches path_match w.matcher s)) [
    | inl e ↦ (i, w, rw (==_refl i), e)
    | inr e ↦
        let (id, sil, found, k) = first_match-lookup s m d.1 (ground arith) in
        (id, sil, ground (arith, string_eq.test_iff i id), k)
  ]

  lookup-first_match :
      (s : Subject) (id : String) (sil : Silence) (m : Dict String Silence)
      → lookup id m ≡ some sil
      → matches path_match sil.matcher s ≡ true
      → is_some (first_match path_match s m) ≡ true
  unfolding first_match lookup
  lookup-first_match s id sil [] h k = cc
  lookup-first_match s id sil ((i, w) ∷ m) h k = ground (arith, lookup-first_match s id sil m)

  IsOpen-iff :
      (now : ℕ) (k : WindowKey) (st : Store)
      → Distinct st.windows
      → (is_some (lookup k (prune now st).windows) ≡ true) ↔ IsOpen now k st
  unfolding prune
  IsOpen-iff now k st d =
      rw (lookup-retain (λ k' until. lasts now until) k st.windows d)
        (there (lookup k st.windows), λ o. back o.0 o.1 o.2)
    where
      there :
          (o : Option ℕ)
          → is_some (kept (λ k' until. lasts now until) k o) ≡ true
          → (until : ℕ) × (o ≡ some until) × (now < until)
      there none h = absurd (cc h)
      there (some until) h = (until, refl, ground arith)

      back :
          (until : ℕ)
          → lookup k st.windows ≡ some until
          → now < until
          → is_some (kept (λ k' until. lasts now until) k (lookup k st.windows)) ≡ true
      back until e l = rw e (ground arith)

  IsSelected-iff :
      (now : ℕ) (s : Subject) (st : Store)
      → Distinct st.silences
      → (is_some (first_match path_match s (prune now st).silences) ≡ true) ↔ IsSelected now s st
  unfolding prune
  IsSelected-iff now s st d =
      (λ h. there (first_match-lookup s _ (Distinct-retain p st.silences d) h), back)
    where
      p : String → Silence → Bool
      p id sil = lasts now sil.until

      kept_some :
          (id : String) (sil : Silence) (o : Option Silence)
          → kept p id o ≡ some sil
          → (o ≡ some sil) × (now < sil.until)
      kept_some id sil none h = absurd (cc h)
      kept_some id sil (some w) h = ground arith

      there :
          ((id : String) × (sil : Silence) × (lookup id (retain p st.silences) ≡ some sil)
            × (matches path_match sil.matcher s ≡ true))
          → IsSelected now s st
      there (id, sil, e, k) =
          let (found, l) =
            kept_some id sil (lookup id st.silences) (rw (lookup-retain p id st.silences d) at e) in
          (id, sil, found, l, k)

      back : IsSelected now s st → is_some (first_match path_match s (retain p st.silences)) ≡ true
      back (id, sil, e, l, k) =
          lookup-first_match s id sil (retain p st.silences)
            (rw (lookup-retain p id st.silences d, e) (ground arith)) k

  -- A problem is ongoing, and a window under a name that it carries is open.
  abbrev in_window : Subject → String → WindowKey → Dict WindowKey ℕ → Bool
  in_window s name k m = not (is_empty name) && not s.one_off && is_some (lookup k m)

  decide_or :
      (s : Subject) (st : Store)
      → is_some (decide path_match s st) ≡ (
          in_window s s.container (container_scope, s.container) st.windows
          || (in_window s s.project (project_scope, s.project) st.windows
              || is_some (first_match path_match s st.silences)))
  unfolding decide
  decide_or s st = ground arith

  in_window_iff :
      (now : ℕ) (s : Subject) (st : Store) (name : String) (k : WindowKey)
      → Distinct st.windows
      → (in_window s name k (prune now st).windows ≡ true)
        ↔ ((s.one_off ≡ false) × (name ≢ "") × IsOpen now k st)
  in_window_iff now s st name k w = (
    λ h. (
      ground arith,
      ground (arith, string_eq.test_iff name ""),
      (IsOpen-iff now k st w).0 (ground arith),
    ),
    λ h. ground (arith, h.0, h.1, string_eq.test_iff name "", (IsOpen-iff now k st w).1 h.2),
  )

  -- `Silenced` says yes exactly when the documentation does: the subject is not a one-off alert and
  -- a deploy window of its container or its project is open, or a silence that has not ended
  -- selects it. The store's maps have each key once.
  pub silenced-IsSilenced :
      (now : ℕ) (s : Subject) (st : Store)
      → Distinct st.silences
      → Distinct st.windows
      → (is_some (silenced path_match now s st).0 ≡ true) ↔ IsSilenced now s st
  unfolding silenced
  silenced-IsSilenced now s st d w =
      let c = in_window_iff now s st s.container (container_scope, s.container) w in
      let q = in_window_iff now s st s.project (project_scope, s.project) w in
      let m = IsSelected-iff now s st d in
      rw (decide_or s (prune now st)) (
        λ h. elim (or_cases _ _ h) [
          | inl e ↦ inl (c.0 e)
          | inr e ↦ elim (or_cases _ _ e) [
            | inl e' ↦ inr (inl (q.0 e'))
            | inr e' ↦ inr (inr (m.0 e'))
          ]
        ],
        λ i. elim i [
          | inl e ↦ ground (arith, c.1 e)
          | inr j ↦ elim j [ inl e ↦ ground (arith, q.1 e) | inr e ↦ ground (arith, m.1 e) ]
        ],
      )
    where
      or_cases : (a b : Bool) → (a || b) ≡ true → (a ≡ true) ⊎ (b ≡ true)
      or_cases a b h = ground arith
