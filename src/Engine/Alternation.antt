-- ===== src/Engine/Alternation.antt =====
-- internal/engine/engine.go: what receivers hear of an episode, over any calls of the loops.
use nodux.Base.{
  ℕ, ◌≡◌, refl, subst, ap, ◌∙◌, Bool, false, String, List, [], ◌∷◌, ◌++◌, Option, none, some,
  string_eq, arith, if_rule, is_some, All,
}
use nodux.Dict.{Dict, lookup}
use nodux.Detector.Types.{Issue, ContainerSnapshot}
use nodux.Silence.{Store}
use nodux.Engine.{Engine, ActiveAlert, ContainerRef}
use nodux.Engine.Track.{
  emit, track_locked, track_at, keys, set_key, track_set, resolve_one, resolve_container, flush_one,
  flush_deferred,
}
use nodux.Engine.Told.{told, told_of, hears_all, AllProper, IsKeyed}
use nodux.Engine.Rounds.{
  AreRounds, Fires, track-IsRound, track_at-IsRound, resolve-IsRound, flush-IsRound,
  for_each-AreRounds, append-AreRounds, none-AreRounds, emit-AreRounds,
}

-- A call of one of the loops. The last two are what a poll and a chat command change meanwhile.
pub data Call : Type 0 where
  tracks : ℕ → String → Option Issue → Option ContainerSnapshot → ℕ → Call
  sets : ℕ → String → List Issue → (Issue → String) → Call
  resolves : ℕ → String → Call
  flushes : ℕ → Call
  polls : Dict String ContainerRef → Call
  silences : Option Store → Call

-- Detectors return firing alerts.
abbrev pub FiresAll : Call → Type 0
FiresAll (tracks now key issue current observed_at) = Fires issue
FiresAll (sets now name issues id) = All (λ i. i.resolved ≡ false) issues
FiresAll _ = Unit

always : (xs : List String) → All (λ x. Unit {0}) xs
always [] = tt
always (x ∷ xs) = (tt, always xs)

module _ (path_match : String → String → Option Bool) where
  unfoldable pub call : Engine → Call → List Issue × Engine
  call e (tracks now key issue current observed_at) =
      let (o, e') = track_at path_match now key issue current observed_at e in (emit o [], e')
  call e (sets now name issues id) = track_set path_match now name issues id e
  call e (resolves now id) = resolve_container now id e
  call e (flushes now) = flush_deferred path_match now e
  call e (polls refs) = ([], record e { containers = refs })
  call e (silences st) = ([], record e { silences = st })

  unfoldable pub run : Engine → List Call → List Issue × Engine
  run e [] = ([], e)
  run e (c ∷ cs) = let (out, e') = call e c in let (outs, e'') = run e' cs in (out ++ outs, e'')

  call-AreRounds : (e : Engine) (c : Call) → FiresAll c → IsKeyed e → AreRounds e (call e c)
  unfolding call track_set resolve_container flush_deferred
  call-AreRounds e (tracks now key issue current observed_at) f v =
      let d = (track_at path_match now key issue current observed_at e).1 in
      let one = track_at-IsRound path_match now key issue current observed_at e f v in
      emit-AreRounds e d _ [] d one (none-AreRounds d d refl one.keyed)
  call-AreRounds e (sets now name issues id) f v =
      let sent =
        for_each-AreRounds (λ i. i.resolved ≡ false)
          (λ i. track_locked path_match now (set_key name id i) (some i) none) issues e
          (λ i d p w. track-IsRound path_match now (set_key name id i) (some i) none d p w) f v in
      append-AreRounds e _ _ _ _ sent (
        for_each-AreRounds (λ k. Unit {0}) (λ k. track_locked path_match now k none none) _ _
          (λ k d p w. track-IsRound path_match now k none none d tt w) (always _) sent.keyed)
  call-AreRounds e (resolves now id) f v =
      for_each-AreRounds (λ k. Unit {0}) (resolve_one now id) (keys e.active) e
        (λ k d p w. resolve-IsRound now id k d w) (always _) v
  call-AreRounds e (flushes now) f v =
      if_rule (AreRounds e) (is_some e.silences)
        (λ y.
          for_each-AreRounds (λ k. Unit {0}) (flush_one path_match now) (keys e.active) e
            (λ k d p w. flush-IsRound path_match now k d w) (always _) v)
        λ n. none-AreRounds e e refl v
  call-AreRounds e (polls refs) f v = none-AreRounds e _ refl v
  call-AreRounds e (silences st) f v = none-AreRounds e _ refl v

  run-AreRounds :
      (e : Engine) (cs : List Call) → All FiresAll cs → IsKeyed e → AreRounds e (run e cs)
  unfolding run
  run-AreRounds e [] f v = none-AreRounds e e refl v
  run-AreRounds e (c ∷ cs) f v =
      append-AreRounds e _ _ _ _ (call-AreRounds e c f.0 v)
        (run-AreRounds (call e c).1 cs f.1 (call-AreRounds e c f.0 v).keyed)

  -- Over any calls of the loops on an engine with no open episode, under any silences and whatever
  -- the polls see, a receiver never gets a resolution of a problem that it was not told of, or that
  -- it was told is over; and it was last told that a problem is on exactly while the episode is
  -- open and marked as notified. Detectors return firing alerts.
  pub run-alternates :
      (e : Engine) (cs : List Call) (key : String)
      → e.active ≡ []
      → All FiresAll cs
      → AllProper key false (run e cs).0
        × (told key (run e cs).1 ≡ hears_all key false (run e cs).0)
  run-alternates e cs key none_open f = (
    subst (λ b. AllProper key b (run e cs).0) untold (rounds.proper key),
    rounds.told_after key ∙ ap (λ b. hears_all key b (run e cs).0) untold,
  )
    where
      rounds : AreRounds e (run e cs)
      rounds =
          run-AreRounds e cs f
            (λ k a h. absurd (ground (arith, ap (lookup k) none_open, nothing k)))
        where
          nothing : (k : String) → ◌≡◌ {A = Option ActiveAlert} (lookup k []) none
          nothing k = unfold lookup in refl

      untold : told key e ≡ false
      untold = unfold lookup in ap (λ m. told_of (lookup key m)) none_open
