-- ===== src/Silence/Valid.antt =====
-- internal/silence/silence.go: the invariant of the store.
use nodux.Base.{
  ℕ, ◌+◌, ◌≡◌, ◌≢◌, refl, ◌⊎◌, inl, inr, Bool, true, not, ◌&&◌, String, List, [], ◌∷◌, Option, none,
  some, arith, string_eq, ◌==◌, is_empty, is_some, subst, Bool-cases, if◌then◌else◌, if_rule, ℤ,
  All, positive,
}
use mathlib.Core.Option.{some-injective}
use nodux.Dict.{
  Dict, lookup, insert, delete, retain, Distinct, kept, lookup-retain, lookup-insert, lookup-delete,
  Distinct-retain, Distinct-insert, Distinct-delete,
}
use nodux.Silence.{
  Store, Silence, Matcher, Saved, AddError, key_eq, new, add, remove, deploy, prune, valid,
  validate, load_state, load_silence, load_silences, container_scope, project_scope,
}
use nodux.Silence.Windows.{IsWindows, retain-IsWindows, extend-IsWindows, load_windows-IsWindows}

-- The calls that change a store.
pub data Op : Type 0 where
  adds : ℕ → String → Matcher → ℤ → String → Op
  removes : String → Op
  deploys : String → String → ℕ → Op
  loads : ℕ → Saved → Op
  prunes : ℕ → Op

-- `Add` draws an identifier of eight characters.
abbrev pub HasId : Op → Type 0
HasId (adds now id m d comment) = id ≢ ""
HasId _ = Unit

-- A refused `Add` leaves the store alone.
abbrev pub after_add : Store → (Store × Silence) ⊎ AddError → Store
after_add st (inl (st', s)) = st'
after_add st (inr e) = st

module _ (path_match : String → String → Option Bool) where
  abbrev pub IsEntry : String → Silence → Type 0
  IsEntry id sil = (sil.id ≡ id) × (id ≢ "") × (valid path_match sil.matcher ≡ true)

  pub record IsSilences (m : Dict String Silence) : Type 0 where
    pub distinct : Distinct m
    pub entries : (id : String) (sil : Silence) → lookup id m ≡ some sil → IsEntry id sil

  -- Each key once; a silence under its own identifier, with a valid matcher.
  pub record IsStore (st : Store) : Type 0 where
    pub silences : IsSilences st.silences
    pub windows : IsWindows st.windows

  insert-IsSilences :
      (s : Silence) (m : Dict String Silence)
      → s.id ≢ ""
      → valid path_match s.matcher ≡ true
      → IsSilences m
      → IsSilences (insert s.id s m)
  insert-IsSilences s m n v i = record {
    distinct = Distinct-insert s.id s m i.distinct;
    entries = λ id sil e. entry id sil (rw (lookup-insert s.id id s m) at e);
  }
    where
      entry :
          (id : String) (sil : Silence)
          → (if s.id == id then some s else lookup id m) ≡ some sil
          → IsEntry id sil
      entry id sil e = elim (Bool-cases (s.id == id)) [
        | inl h ↦
            subst (IsEntry id) (some-injective s sil (rw h at e))
              (subst (λ i. IsEntry i s) ((string_eq.test_iff s.id id).0 h) (refl, n, v))
        | inr h ↦ i.entries id sil (rw h at e)
      ]

  retain-IsSilences :
      (p : String → Silence → Bool) (m : Dict String Silence)
      → IsSilences m
      → IsSilences (retain p m)
  retain-IsSilences p m i = record {
    distinct = Distinct-retain p m i.distinct;
    entries = λ id sil e.
        i.entries id sil
          (kept_some id sil (lookup id m) (rw (lookup-retain p id m i.distinct) at e));
  }
    where
      kept_some :
          (id : String) (sil : Silence) (o : Option Silence) → kept p id o ≡ some sil → o ≡ some sil
      kept_some id sil none e = e
      kept_some id sil (some w) e = ground arith

  delete-IsSilences :
      (id : String) (m : Dict String Silence) → IsSilences m → IsSilences (delete id m)
  delete-IsSilences id m i = record {
    distinct = Distinct-delete id m i.distinct;
    entries = λ j sil e. i.entries j sil (ground (arith, lookup-delete id j m));
  }

  load_silence-IsSilences :
      (s : Silence) (m : Dict String Silence)
      → IsSilences m
      → IsSilences (load_silence path_match s m)
  load_silence-IsSilences s m i =
      if_rule IsSilences (not (is_empty s.id) && valid path_match s.matcher)
        (λ h. insert-IsSilences s m (ground (arith, string_eq.test_iff s.id "")) (ground arith) i)
        λ h. i

  pub load_silences-IsSilences :
      (ss : List Silence) (m : Dict String Silence)
      → IsSilences m
      → IsSilences (load_silences path_match ss m)
  unfolding load_silences
  load_silences-IsSilences [] m i = i
  load_silences-IsSilences (s ∷ ss) m i =
      load_silences-IsSilences ss _ (load_silence-IsSilences s m i)

  pub prune-IsStore : (now : ℕ) (st : Store) → IsStore st → IsStore (prune now st)
  unfolding prune
  prune-IsStore now st i = record {
    silences = retain-IsSilences _ st.silences i.silences;
    windows = retain-IsWindows _ st.windows i.windows;
  }

  -- `List`, `Windows` and `Silenced` change the store by pruning alone.
  unfoldable pub step : Store → Op → Store
  step st (adds now id m d comment) = after_add st (add path_match now id m d comment st)
  step st (removes id) = (remove id st).0
  step st (deploys container project until) = deploy container project until st
  step st (loads now sv) = load_state path_match now sv st
  step st (prunes now) = prune now st

  unfoldable pub run : Store → List Op → Store
  run st [] = st
  run st (op ∷ ops) = run (step st op) ops

  add-IsStore :
      (now : ℕ) (id : String) (m : Matcher) (d : ℤ) (comment : String) (st : Store)
      → id ≢ ""
      → IsStore st
      → IsStore (after_add st (add path_match now id m d comment st))
  unfolding add
  add-IsStore now id m d comment st n i = by_error (validate path_match m) refl (positive d)
    where
      result : Option AddError → Option ℕ → (Store × Silence) ⊎ AddError
      result v o = elim v [
        | some e ↦ inr e
        | none ↦ elim o [
          | none ↦ inr AddError.not_positive
          | some n ↦
              let s : Silence = record {
                id = id;
                matcher = m;
                comment = comment;
                created = now;
                until = now + n;
              } in
              inl (record st { silences = insert id s st.silences }, s)
        ]
      ]

      by_error :
          (v : Option AddError)
          → validate path_match m ≡ v
          → (o : Option ℕ) → IsStore (after_add st (result v o))
      by_error (some e) h o = i
      by_error none h none = i
      by_error none h (some t) = record {
        silences = insert-IsSilences _ st.silences n (ground arith) i.silences;
        windows = i.windows;
      }

  step-IsStore : (st : Store) (op : Op) → HasId op → IsStore st → IsStore (step st op)
  unfolding step remove deploy load_state
  step-IsStore st (adds now id m d comment) n i = add-IsStore now id m d comment st n i
  step-IsStore st (removes id) n i =
      if_rule (λ (r : Store × Bool). IsStore r.0) (is_some (lookup id st.silences))
        (λ h. record {
          silences = delete-IsSilences id st.silences i.silences;
          windows = i.windows;
        })
        λ h. i
  step-IsStore st (deploys container project until) n i = record {
    silences = i.silences;
    windows =
        extend-IsWindows (project_scope, project) until _ (inr refl)
          (extend-IsWindows (container_scope, container) until st.windows (inl refl) i.windows);
  }
  step-IsStore st (loads now sv) n i = prune-IsStore now _ (record {
    silences = load_silences-IsSilences sv.silences st.silences i.silences;
    windows = load_windows-IsWindows sv.windows st.windows i.windows;
  })
  step-IsStore st (prunes now) n i = prune-IsStore now st i

  pub run_from-IsStore :
      (st : Store) (ops : List Op) → All HasId ops → IsStore st → IsStore (run st ops)
  unfolding run
  run_from-IsStore st [] h i = i
  run_from-IsStore st (op ∷ ops) h i =
      run_from-IsStore (step st op) ops h.1 (step-IsStore st op h.0 i)

  pub new-IsStore : IsStore new
  unfolding new lookup
  new-IsStore = record {
    silences = record { distinct = tt; entries = λ id sil e. absurd (cc e) };
    windows = record { distinct = tt; keys = λ k t e. absurd (cc e) };
  }

  -- Whatever calls change the store, saved states of any content included, its maps have each key
  -- once, each silence stands under its own identifier, which is not empty, with a valid matcher,
  -- and each window has one of the two scopes and a name. `Add` must draw identifiers that are
  -- not empty.
  pub run-IsStore : (ops : List Op) → All HasId ops → IsStore (run new ops)
  run-IsStore ops h = run_from-IsStore new ops h new-IsStore
