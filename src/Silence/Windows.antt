-- ===== src/Silence/Windows.antt =====
-- internal/silence/silence.go: the deploy windows of a store, each with a scope and a name.
use nodux.Base.{
  ℕ, ◌≡◌, ◌≢◌, ◌⊎◌, inl, inr, Bool, not, ◌&&◌, ◌||◌, List, [], ◌∷◌, Option, none, some, arith,
  string_eq, ◌==◌, is_empty, subst, or_else, ltb, Bool-cases, if◌then◌else◌, if_rule,
}
use nodux.Dict.{
  Dict, lookup, insert, retain, Distinct, kept, lookup-retain, lookup-insert, Distinct-retain,
  Distinct-insert,
}
use nodux.Silence.{
  Window, WindowKey, key_eq, key_test_iff, extend, load_window, load_windows, container_scope,
  project_scope,
}

-- The names and scopes that a window's key can have.
abbrev pub IsWindowKey : WindowKey → Type 0
IsWindowKey k = (k.1 ≢ "") × ((k.0 ≡ container_scope) ⊎ (k.0 ≡ project_scope))

pub record IsWindows (m : Dict WindowKey ℕ) : Type 0 where
  pub distinct : Distinct m
  pub keys : (k : WindowKey) (until : ℕ) → lookup k m ≡ some until → IsWindowKey k

insert-IsWindows :
    (k : WindowKey) (until : ℕ) (m : Dict WindowKey ℕ)
    → IsWindowKey k
    → IsWindows m
    → IsWindows (insert k until m)
insert-IsWindows k until m h i = record {
  distinct = Distinct-insert k until m i.distinct;
  keys = λ j t e. key j t (rw (lookup-insert k j until m) at e);
}
  where
    key :
        (j : WindowKey) (t : ℕ)
        → (if k == j then some until else lookup j m) ≡ some t
        → IsWindowKey j
    key j t e = elim (Bool-cases (k == j)) [
      | inl q ↦ subst IsWindowKey ((key_test_iff k j).0 q) h
      | inr q ↦ i.keys j t (rw q at e)
    ]

pub retain-IsWindows :
    (p : WindowKey → ℕ → Bool) (m : Dict WindowKey ℕ) → IsWindows m → IsWindows (retain p m)
retain-IsWindows p m i = record {
  distinct = Distinct-retain p m i.distinct;
  keys =
      λ k t e. i.keys k t (kept_some k t (lookup k m) (rw (lookup-retain p k m i.distinct) at e));
}
  where
    kept_some : (k : WindowKey) (t : ℕ) (o : Option ℕ) → kept p k o ≡ some t → o ≡ some t
    kept_some k t none e = e
    kept_some k t (some w) e = ground arith

pub extend-IsWindows :
    (k : WindowKey) (until : ℕ) (m : Dict WindowKey ℕ)
    → (k.0 ≡ container_scope) ⊎ (k.0 ≡ project_scope)
    → IsWindows m
    → IsWindows (extend k until m)
unfolding extend
extend-IsWindows k until m c i =
    if_rule IsWindows (not (is_empty k.1) && ltb (or_else (lookup k m) 0) until)
      (λ h. insert-IsWindows k until m (ground (arith, string_eq.test_iff k.1 ""), c) i) λ h. i

load_window-IsWindows :
    (w : Window) (m : Dict WindowKey ℕ) → IsWindows m → IsWindows (load_window w m)
load_window-IsWindows w m i =
    if_rule IsWindows
      ((w.scope == container_scope || w.scope == project_scope)
        && not (is_empty w.name)
        && ltb (or_else (lookup (w.scope, w.name) m) 0) w.until)
      (λ h.
        insert-IsWindows (w.scope, w.name) w.until m
          (
            ground (arith, string_eq.test_iff w.name ""),
            ground (
              arith,
              string_eq.test_iff w.scope container_scope,
              string_eq.test_iff w.scope project_scope,
            ),
          )
          i)
      λ h. i

pub load_windows-IsWindows :
    (ws : List Window) (m : Dict WindowKey ℕ) → IsWindows m → IsWindows (load_windows ws m)
unfolding load_windows
load_windows-IsWindows [] m i = i
load_windows-IsWindows (w ∷ ws) m i = load_windows-IsWindows ws _ (load_window-IsWindows w m i)
