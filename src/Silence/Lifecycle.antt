-- ===== src/Silence/Lifecycle.antt =====
-- internal/silence/silence.go: what becomes of silences and deploy windows.
use nodux.Base.{
  ℕ, ◌+◌, ◌≤◌, ◌<◌, ◌≡◌, inl, inr, Bool, true, not, ◌&&◌, ◌||◌, String, Option, none, some, arith,
  string_eq, ◌==◌, is_empty, is_some, or_else, max, Option-cases, if◌then◌else◌, ℤ, positive,
}
use nodux.Dict.{
  Dict, lookup, insert, Distinct, lookup-retain, lookup-insert, lookup-insert_self, Distinct-insert,
}
use nodux.Silence.{
  Store, Silence, Subject, Matcher, WindowKey, key_eq, key_test_iff, add, deploy, extend, prune,
  valid, validate, container_scope, project_scope, lasts, matches, silenced,
}
use nodux.Silence.Decide.{silenced-IsSilenced}

-- A window's end, the zero time where there is none.
abbrev pub window_end : WindowKey → Store → ℕ
window_end k st = or_else (lookup k st.windows) 0

lookup-extend :
    (k j : WindowKey) (until : ℕ) (m : Dict WindowKey ℕ)
    → or_else (lookup j (extend k until m)) 0 ≡ (
        if not (is_empty k.1) && k == j
        then max (or_else (lookup j m) 0) until
        else or_else (lookup j m) 0)
unfolding extend
lookup-extend k j until m = ground (arith, lookup-insert k j until m, key_test_iff k j)

-- The keys that a deploy event of a container and its project is about.
abbrev pub concerns : String → String → WindowKey → Bool
concerns container project k =
    (not (is_empty container) && (container_scope, container) == k)
    || (not (is_empty project) && (project_scope, project) == k)

-- A deploy event opens the windows of the container and of its project that have a name, or
-- prolongs them, never shortens them, and leaves every other window alone.
pub window_end-deploy :
    (container project : String) (until : ℕ) (st : Store) (k : WindowKey)
    → window_end k (deploy container project until st)
      ≡ (if concerns container project k then max (window_end k st) until else window_end k st)
unfolding deploy
window_end-deploy container project until st k =
    let first = extend (container_scope, container) until st.windows in
    ground (
      arith,
      lookup-extend (project_scope, project) k until first,
      lookup-extend (container_scope, container) k until st.windows,
      key_test_iff (container_scope, container) k,
      key_test_iff (project_scope, project) k,
    )

module _ (path_match : String → String → Option Bool) where
  add_accepts :
      (now : ℕ) (id : String) (m : Matcher) (d : ℤ) (comment : String) (st : Store) (n : ℕ)
      → valid path_match m ≡ true
      → positive d ≡ some n
      → add path_match now id m d comment st
        ≡ inl (
          record st {
            silences =
                insert id
                  (record {
                    id = id;
                    matcher = m;
                    comment = comment;
                    created = now;
                    until = now + n;
                  })
                  st.silences;
          },
          record { id = id; matcher = m; comment = comment; created = now; until = now + n },
        )
  unfolding add
  add_accepts now id m d comment st n v p = elim (Option-cases (validate path_match m)) [
    | inl e ↦ rw (e, add, p)
    | inr (x, e) ↦ absurd (ground arith)
  ]

  -- A silence with a valid matcher and a positive duration is accepted; it silences each subject
  -- that its matcher selects until the duration is over, and from then on it is gone. The store's
  -- maps have each key once.
  pub add_lifetime :
      (now : ℕ) (id : String) (m : Matcher) (d : ℤ) (comment : String) (st : Store) {n : ℕ}
      → valid path_match m ≡ true
      → positive d ≡ some n
      → Distinct st.silences
      → Distinct st.windows
      → (st' : Store) × (s : Silence) × (add path_match now id m d comment st ≡ inl (st', s))
        × ((t : ℕ) (x : Subject)
            → t < now + n
            → matches path_match m x ≡ true
            → is_some (silenced path_match t x st').0 ≡ true)
        × ((t : ℕ) → now + n ≤ t → lookup id (prune t st').silences ≡ none)
  add_lifetime now id m d comment st {n} v p ds dw = (
    record st { silences = insert id s st.silences },
    s,
    add_accepts now id m d comment st n v p,
    λ t x l k.
        (silenced-IsSilenced path_match t x _ (Distinct-insert id s st.silences ds) dw).1
          (inr (inr (id, s, lookup-insert_self id s st.silences, l, k))),
    λ t l.
        unfold prune in
        rw
          (
            lookup-retain (λ i sil. lasts t sil.until) id (insert id s st.silences)
                (Distinct-insert id s st.silences ds),
            lookup-insert_self id s st.silences,
          )
          (ground arith),
  )
    where
      s : Silence
      s = record { id = id; matcher = m; comment = comment; created = now; until = now + n }
