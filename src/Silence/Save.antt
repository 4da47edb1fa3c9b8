-- ===== src/Silence/Save.antt =====
-- internal/silence/silence.go: silences and windows survive a restart.
use nodux.Base.{
  ℕ, ◌≤◌, ◌≡◌, refl, ap, sym, ◌∙◌, Bool, String, [], Option, none, some, arith, string_eq, or_else,
  if◌then◌else◌,
}
use nodux.Dict.{lookup, Distinct, kept, lookup-retain}
use nodux.Silence.{
  Store, Silence, WindowKey, key_eq, new, prune, list, list_windows, save_state, load_state,
  load_silences, load_windows, lasts,
}
use nodux.Silence.Windows.{load_windows-IsWindows}
use nodux.Silence.Valid.{IsStore, new-IsStore, load_silences-IsSilences, prune-IsStore}
use nodux.Silence.Lifecycle.{window_end}
use nodux.Silence.Listed.{lookup-load_list, lookup-load_list_windows}

kept_again :
    {K V : Type 0} (f : V → ℕ) (now later : ℕ) (k : K) (o : Option V)
    → now ≤ later
    → kept (λ i v. lasts later (f v)) k (kept (λ i v. lasts now (f v)) k o)
      ≡ kept (λ i v. lasts later (f v)) k o
kept_again f now later k none h = refl
kept_again f now later k (some v) h = ground arith

lookup-pruned :
    (now : ℕ) (st : Store) (id : String)
    → Distinct st.silences
    → lookup id (prune now st).silences ≡ kept (λ i s. lasts now s.until) id (lookup id st.silences)
unfolding prune
lookup-pruned now st id d = lookup-retain (λ i s. lasts now s.until) id st.silences d

-- An end that is over counts as none.
abbrev end_at : ℕ → ℕ → ℕ
end_at now until = if lasts now until then until else 0

end-kept :
    (now : ℕ) (k : WindowKey) (o : Option ℕ)
    → or_else (kept (λ i until. lasts now until) k o) 0 ≡ end_at now (or_else o 0)
end-kept now k none = ground arith
end-kept now k (some u) = ground arith

window_end-prune :
    (now : ℕ) (st : Store) (k : WindowKey)
    → Distinct st.windows
    → window_end k (prune now st) ≡ end_at now (window_end k st)
unfolding prune
window_end-prune now st k d =
    ap (λ o. or_else o 0) (lookup-retain (λ i until. lasts now until) k st.windows d)
    ∙ end-kept now k (lookup k st.windows)

module _ (path_match : String → String → Option Bool) where
  -- The state that `SaveState` writes (reading the clock twice) and that a new process loads later
  -- has, under each identifier, the silence of the saved store that has not ended by then, and
  -- under each key a window with the same end. Silences and windows of the store are well formed.
  pub load_state-save_state :
      (now now' later : ℕ) (st : Store)
      → IsStore path_match st
      → now ≤ later
      → now' ≤ later
      → let st' = load_state path_match later (save_state now now' st).0 new in
        ((id : String) → lookup id st'.silences ≡ lookup id (prune later st).silences)
        × ((k : WindowKey) → window_end k st' ≡ window_end k (prune later st))
  unfolding load_state save_state new
  load_state-save_state now now' later st i le le' = (silence_same, window_same)
    where
      j : IsStore path_match (list now st).1
      j = unfold list in prune-IsStore path_match now st i

      loaded : Store
      loaded = record {
        silences = load_silences path_match (list now st).0 [];
        windows = load_windows (list_windows now' (list now st).1).0 [];
      }

      silence_same :
          (id : String)
          → lookup id (prune later loaded).silences ≡ lookup id (prune later st).silences
      silence_same id =
          lookup-pruned later loaded id
            (load_silences-IsSilences path_match _ [] (new-IsStore path_match).silences).distinct
          ∙ ap (kept (λ k s. lasts later s.until) id) (
              lookup-load_list path_match now st id i ∙ lookup-pruned now st id i.silences.distinct)
          ∙ kept_again (λ (s : Silence). s.until) now later id (lookup id st.silences) le
          ∙ sym (lookup-pruned later st id i.silences.distinct)

      pruned : (k : WindowKey) → window_end k (list now st).1 ≡ end_at now (window_end k st)
      pruned k = unfold list in window_end-prune now st k i.windows.distinct

      end_again : (u : ℕ) → end_at later (end_at now' (end_at now u)) ≡ end_at later u
      end_again u = ground arith

      window_same :
          (k : WindowKey) → window_end k (prune later loaded) ≡ window_end k (prune later st)
      window_same k =
          window_end-prune later loaded k
            (load_windows-IsWindows _ [] (new-IsStore path_match).windows).distinct
          ∙ ap (end_at later) (
              lookup-load_list_windows now' (list now st).1 k
                (prune-IsStore path_match now' _ j).windows
              ∙ window_end-prune now' (list now st).1 k j.windows.distinct
              ∙ ap (end_at now') (pruned k))
          ∙ end_again (window_end k st)
          ∙ sym (window_end-prune later st k i.windows.distinct)
