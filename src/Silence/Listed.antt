-- ===== src/Silence/Listed.antt =====
-- internal/silence/silence.go: what `List` and `Windows` return, loaded into an empty store.
use nodux.Base.{
  ℕ, ◌≡◌, ◌≢◌, refl, subst, ap, ap₂, sym, ◌∙◌, Bool, true, not, ◌&&◌, String, List, [], ◌∷◌, Option,
  none, some, map, arith, string_eq, ◌==◌, ==_refl, is_empty, or_else, max, if◌then◌else◌, All,
}
use nodux.Dict.{Dict, lookup, insert, overlay, over, Distinct, lookup-insert, lookup-overlay}
use nodux.Sort.{sort_by, All-sort_by, lookup-sort_by, Distinct-sort_by}
use nodux.Silence.{
  Store, Silence, Window, WindowKey, key_eq, key_test_iff, prune, valid, values, window_of, before,
  window_before, list, list_windows, load_silences, load_window, load_windows, container_scope,
  project_scope,
}
use nodux.Silence.Windows.{IsWindows, IsWindowKey}
use nodux.Silence.Valid.{IsStore, prune-IsStore, IsSilences}
use nodux.Silence.Lifecycle.{window_end}

abbrev silence_entry : Silence → String × Silence
silence_entry s = (s.id, s)

abbrev window_entry : Window → WindowKey × ℕ
window_entry w = ((w.scope, w.name), w.until)

window_entries : (m : Dict WindowKey ℕ) → map window_entry (map window_of m) ≡ m
window_entries [] = refl
window_entries ((k, u) ∷ m) = ap (λ r. (k, u) ∷ r) (window_entries m)

silence_entries :
    (m : Dict String Silence)
    → ((id : String) (sil : Silence) → lookup id m ≡ some sil → sil.id ≡ id)
    → Distinct m
    → map silence_entry (values m) ≡ m
silence_entries [] h d = refl
silence_entries ((i, w) ∷ m) h d =
    ap₂ (λ (j : String) (r : Dict String Silence). (j, w) ∷ r)
      (h i w (unfold lookup in rw (==_refl i)))
      (silence_entries m (λ id sil e. h id sil (later id sil e)) d.1)
  where
    later :
        (id : String) (sil : Silence) → lookup id m ≡ some sil → lookup id ((i, w) ∷ m) ≡ some sil
    later id sil e = unfold lookup in ground (arith, string_eq.test_iff i id, d.0)

-- A window that `LoadState` accepts where nothing stands yet.
abbrev IsLoadable : Window → Type 0
IsLoadable w = IsWindowKey (w.scope, w.name)

window_end-load_window :
    (w : Window) (k : WindowKey) (m : Dict WindowKey ℕ)
    → IsLoadable w
    → or_else (lookup k (load_window w m)) 0 ≡ (
        if (w.scope, w.name) == k
        then max w.until (or_else (lookup k m) 0)
        else or_else (lookup k m) 0)
window_end-load_window w k m h = ground (
  arith,
  lookup-insert (w.scope, w.name) k w.until m,
  key_test_iff (w.scope, w.name) k,
  string_eq.test_iff w.scope container_scope,
  string_eq.test_iff w.scope project_scope,
  string_eq.test_iff w.name "",
  h.0,
  h.1,
)

window_end-load_windows :
    (ws : List Window) (k : WindowKey) (m : Dict WindowKey ℕ)
    → All IsLoadable ws
    → Distinct (map window_entry ws)
    → or_else (lookup k (load_windows ws m)) 0
      ≡ max (or_else (lookup k (map window_entry ws)) 0) (or_else (lookup k m) 0)
unfolding load_windows lookup
window_end-load_windows [] k m h d = omega arith
window_end-load_windows (w ∷ ws) k m h d = ground (
  arith,
  window_end-load_windows ws k (load_window w m) h.1 d.1,
  window_end-load_window w k m h.0,
  key_test_iff (w.scope, w.name) k,
  d.0,
)

Loadable-entries :
    (m : Dict WindowKey ℕ)
    → ((k : WindowKey) (until : ℕ) → lookup k m ≡ some until → IsWindowKey k)
    → Distinct m
    → All IsLoadable (map window_of m)
Loadable-entries [] h d = tt
Loadable-entries ((k, u) ∷ m) h d = (
  h k u (unfold lookup in rw (==_refl ⦃k = key_eq⦄ k)),
  Loadable-entries m (λ j t e. h j t (later j t e)) d.1,
)
  where
    later : (j : WindowKey) (t : ℕ) → lookup j m ≡ some t → lookup j ((k, u) ∷ m) ≡ some t
    later j t e = unfold lookup in ground (arith, key_test_iff k j, d.0)

module _ (path_match : String → String → Option Bool) where
  abbrev IsKept : Silence → Type 0
  IsKept s = (not (is_empty s.id) && valid path_match s.matcher) ≡ true

  load_silences-overlay :
      (ss : List Silence) (m : Dict String Silence)
      → All IsKept ss
      → load_silences path_match ss m ≡ overlay (map silence_entry ss) m
  unfolding load_silences overlay
  load_silences-overlay [] m h = refl
  load_silences-overlay (s ∷ ss) m h = rw h.0 (load_silences-overlay ss (insert s.id s m) h.1)

  IsKept-values : (m : Dict String Silence) → IsSilences path_match m → All IsKept (values m)
  IsKept-values m i = go m i.entries i.distinct
    where
      go :
          (m : Dict String Silence)
          → ((id : String) (sil : Silence)
              → lookup id m ≡ some sil
              → (sil.id ≡ id) × (id ≢ "") × (valid path_match sil.matcher ≡ true))
          → Distinct m
          → All IsKept (values m)
      go [] h d = tt
      go ((j, w) ∷ m) h d =
          let (own, named, ok) = h j w (unfold lookup in rw (==_refl j)) in
          (
            ground (arith, string_eq.test_iff w.id ""),
            go m
                (λ id sil e.
                  h id sil (unfold lookup in ground (arith, string_eq.test_iff j id, d.0)))
                d.1,
          )

  -- What `List` returns, loaded into an empty map, is the pruned map.
  pub lookup-load_list :
      (now : ℕ) (st : Store) (id : String)
      → IsStore path_match st
      → lookup id (load_silences path_match (list now st).0 []) ≡ lookup id (prune now st).silences
  unfolding list
  lookup-load_list now st id i =
      rw
        (load_silences-overlay sorted [] (All-sort_by before IsKept (values m) (IsKept-values m j)))
        (lookup-overlay id (map silence_entry sorted) []
            (Distinct-sort_by before silence_entry (values m) d)
          ∙ over_none _
          ∙ lookup-sort_by before silence_entry id (values m) d
          ∙ ap (lookup id) same)
    where
      j : IsSilences path_match (prune now st).silences
      j = (prune-IsStore path_match now st i).silences

      m : Dict String Silence
      m = (prune now st).silences

      sorted : List Silence
      sorted = sort_by before (values m)

      same : map silence_entry (values m) ≡ m
      same = silence_entries m (λ id' sil e. (j.entries id' sil e).0) j.distinct

      d : Distinct (map silence_entry (values m))
      d = subst Distinct (sym same) j.distinct

      over_none : (o : Option Silence) → over o (lookup id []) ≡ o
      over_none none = unfold lookup in refl
      over_none (some x) = refl

-- What `Windows` returns, loaded into an empty map, has the ends of the pruned map.
pub lookup-load_list_windows :
    (now : ℕ) (st : Store) (k : WindowKey)
    → IsWindows (prune now st).windows
    → or_else (lookup k (load_windows (list_windows now st).0 [])) 0 ≡ window_end k (prune now st)
unfolding list_windows
lookup-load_list_windows now st k j =
    window_end-load_windows sorted k []
      (All-sort_by window_before IsLoadable (map window_of m)
        (Loadable-entries m j.keys j.distinct))
      (Distinct-sort_by window_before window_entry (map window_of m) d)
    ∙ omega (arith, no_window)
    ∙ ap (λ o. or_else o 0) (lookup-sort_by window_before window_entry k (map window_of m) d)
    ∙ ap (λ r. or_else (lookup k r) 0) (window_entries m)
  where
    m : Dict WindowKey ℕ
    m = (prune now st).windows

    sorted : List Window
    sorted = sort_by window_before (map window_of m)

    d : Distinct (map window_entry (map window_of m))
    d = subst Distinct (sym (window_entries m)) j.distinct

    no_window : let e : Dict WindowKey ℕ = [] in or_else (lookup k e) 0 ≡ 0
    no_window = unfold lookup in refl
