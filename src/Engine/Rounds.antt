-- ===== src/Engine/Rounds.antt =====
-- internal/engine/engine.go: the calls that open, escalate, close and flush episodes, each as rounds
-- that send at most one alert.
use nodux.Base.{
  ℕ, ◌≡◌, refl, subst, sym, ◌∙◌, ap, Bool, true, false, not, String, List, [], ◌∷◌, ◌++◌, Option,
  none, some, string_eq, ◌==◌, if_rule, ltb, inl, inr, Option-cases, arith, All,
}
use nodux.Dict.{lookup, insert}
use nodux.Detector.Types.{Issue, ContainerSnapshot, severity_rank}
use nodux.Engine.{Engine, ActiveAlert}
use nodux.Engine.Track.{
  resolution, silenced_locked, open_episode, escalate, close_episode, track_case, track_locked,
  track_at, is_stale, emit, for_each, resolve_one, late, flush_one,
}
use nodux.Engine.Told.{
  told, told_of, hears, hears_all, AllProper, IsKeyed, IsRound, fires-IsRound, ends-IsRound,
  quiet-IsRound,
}

-- What a list of rounds sends.
pub record AreRounds (e : Engine) (r : List Issue × Engine) : Type 0 where
  pub proper : (key : String) → AllProper key (told key e) r.0
  pub told_after : (key : String) → told key r.1 ≡ hears_all key (told key e) r.0
  pub keyed : IsKeyed r.1

-- The alerts that a detector returns are firing.
abbrev pub Fires : Option Issue → Type 0
Fires none = Unit
Fires (some i) = i.resolved ≡ false

resolution_lem :
    (now : ℕ) (a : ActiveAlert) (reason : String)
    → ((resolution now a reason).key ≡ a.issue.key)
      × ((resolution now a reason).resolved ≡ true)
      × ((resolution now a reason).silenced ≡ not a.notified)
unfolding resolution
resolution_lem now a reason = (refl, refl, refl)

close-IsRound :
    (now : ℕ) (k : String) (a : ActiveAlert) (current : Option ContainerSnapshot) (e : Engine)
    → lookup k e.active ≡ some a
    → IsKeyed e
    → IsRound e (close_episode now k a current e)
unfolding close_episode resolution
close-IsRound now k a none e h v =
    ends-IsRound e _ k _ refl ((v k a h).0, refl, ap not (sym (ap told_of h))) v
close-IsRound now k a (some c) e h v =
    ends-IsRound e _ k _ refl ((v k a h).0, refl, ap not (sym (ap told_of h))) v

pub resolve-IsRound :
    (now : ℕ) (id k : String) (e : Engine) → IsKeyed e → IsRound e (resolve_one now id k e)
unfolding resolve_one
resolve-IsRound now id k e v = elim (Option-cases (lookup k e.active)) [
  | inl n ↦ rw (n, resolve_one) (quiet-IsRound e e refl v)
  | inr (a, h) ↦
      rw (h, resolve_one)
        (if_rule (IsRound e) (a.container_id == id)
          (λ y.
            unfold resolution in
            ends-IsRound e _ k _ refl ((v k a h).0, refl, ap not (sym (ap told_of h))) v)
          λ n. quiet-IsRound e e refl v)
]

module _ (path_match : String → String → Option Bool) where
  -- Asking for silences changes no episode.
  pub active-silenced_locked :
      (now : ℕ) (issue : Issue) (one_off : Bool) (e : Engine)
      → (silenced_locked path_match now issue one_off e).1.active ≡ e.active
  unfolding silenced_locked
  active-silenced_locked now issue one_off e = ground arith

  open-IsRound :
      (now : ℕ) (k : String) (issue : Issue) (e : Engine)
      → lookup k e.active ≡ none
      → issue.resolved ≡ false
      → IsKeyed e
      → IsRound e (open_episode path_match now k issue e)
  unfolding open_episode
  open-IsRound now k issue e h f v =
      let keyed = record issue { key = k } in
      fires-IsRound e _ k _ _ (ap (insert k _) (active-silenced_locked now keyed false e)) (refl, f)
        (refl, f, refl) (ground (arith, ap told_of h)) v

  escalate-IsRound :
      (now : ℕ) (k : String) (issue : Issue) (a : ActiveAlert) (e : Engine)
      → lookup k e.active ≡ some a
      → issue.resolved ≡ false
      → IsKeyed e
      → IsRound e (escalate path_match now k issue a e)
  unfolding escalate
  escalate-IsRound now k issue a e h f v =
      let keyed = record issue { key = k } in
      fires-IsRound e _ k _ _ (ap (insert k _) (active-silenced_locked now keyed false e)) (refl, f)
        (refl, f, refl) (ground (arith, ap told_of h)) v

  pub track-IsRound :
      (now : ℕ) (k : String) (issue : Option Issue) (current : Option ContainerSnapshot)
      (e : Engine)
      → Fires issue
      → IsKeyed e
      → IsRound e (track_locked path_match now k issue current e)
  unfolding track_locked track_case
  track-IsRound now k issue current e f v = by_case issue (lookup k e.active) f refl
    where
      by_case :
          (i : Option Issue) (o : Option ActiveAlert)
          → Fires i
          → lookup k e.active ≡ o
          → IsRound e (track_case path_match now k i current o e)
      by_case (some i) none f h = open-IsRound now k i e h f v
      by_case (some i) (some a) f h =
          if_rule (IsRound e) (ltb (severity_rank a.issue.severity) (severity_rank i.severity))
            (λ y. escalate-IsRound now k i a e h f v) λ n. quiet-IsRound e e refl v
      by_case none (some a) f h = close-IsRound now k a current e h v
      by_case none none f h = quiet-IsRound e e refl v

  pub track_at-IsRound :
      (now : ℕ) (k : String) (issue : Option Issue) (current : Option ContainerSnapshot)
      (observed_at : ℕ) (e : Engine)
      → Fires issue
      → IsKeyed e
      → IsRound e (track_at path_match now k issue current observed_at e)
  unfolding track_at
  track_at-IsRound now k issue current observed_at e f v =
      if_rule (IsRound e) (is_stale observed_at issue (lookup k e.active))
        (λ y. quiet-IsRound e e refl v) λ n. track-IsRound now k issue current e f v

  pub flush-IsRound :
      (now : ℕ) (k : String) (e : Engine) → IsKeyed e → IsRound e (flush_one path_match now k e)
  unfolding flush_one
  flush-IsRound now k e v = elim (Option-cases (lookup k e.active)) [
    | inl n ↦ rw (n, flush_one) (quiet-IsRound e e refl v)
    | inr (a, h) ↦
        rw (h, flush_one)
          (if_rule (IsRound e) a.notified (λ y. quiet-IsRound e e refl v)
            λ y.
              if_rule (IsRound e) (silenced_locked path_match now a.issue false e).0
                (λ z. quiet-IsRound e _ (active-silenced_locked now a.issue false e) v)
                λ z.
                  unfold late in
                  fires-IsRound e _ k _ _
                    (ap (insert k _) (active-silenced_locked now a.issue false e))
                    ((v k a h).0, (v k a h).1) (v k a h) (ground (arith, (v k a h).2)) v)
  ]

-- A round, and the rounds after it.
pub emit-AreRounds :
    (e d : Engine) (o : Option Issue) (out : List Issue) (d' : Engine)
    → IsRound e (o, d)
    → AreRounds d (out, d')
    → AreRounds e (emit o out, d')
emit-AreRounds e d none out d' one rest = record {
  proper = λ key. subst (λ b. AllProper key b out) (one.agrees key) (rest.proper key);
  told_after = λ key. rest.told_after key ∙ ap (λ b. hears_all key b out) (one.agrees key);
  keyed = rest.keyed;
}
emit-AreRounds e d (some i) out d' one rest = record {
  proper = λ key.
      ((one.agrees key).0, subst (λ b. AllProper key b out) ((one.agrees key).1) (rest.proper key));
  told_after = λ key. rest.told_after key ∙ ap (λ b. hears_all key b out) ((one.agrees key).1);
  keyed = rest.keyed;
}

pub none-AreRounds : (e e' : Engine) → e'.active ≡ e.active → IsKeyed e → AreRounds e ([], e')
none-AreRounds e e' s v = record {
  proper = λ key. tt;
  told_after = λ key. ap (λ m. told_of (lookup key m)) s;
  keyed = λ key b q. v key b (ap (lookup key) (sym s) ∙ q);
}

pub for_each-AreRounds {ℓ κ} :
    {A : Type ℓ} (P : A → Type κ) (f : A → Engine → Option Issue × Engine) (xs : List A)
    (e : Engine)
    → ((x : A) (d : Engine) → P x → IsKeyed d → IsRound d (f x d))
    → All P xs
    → IsKeyed e
    → AreRounds e (for_each f xs e)
unfolding for_each
for_each-AreRounds P f [] e h p v = none-AreRounds e e refl v
for_each-AreRounds P f (x ∷ xs) e h p v =
    emit-AreRounds e (f x e).1 (f x e).0 _ _ (h x e p.0 v)
      (for_each-AreRounds P f xs (f x e).1 h p.1 (h x e p.0 v).keyed)

AllProper-append :
    (key : String) (b : Bool) (xs ys : List Issue)
    → AllProper key b xs
    → AllProper key (hears_all key b xs) ys
    → AllProper key b (xs ++ ys)
AllProper-append key b [] ys hx hy = hy
AllProper-append key b (x ∷ xs) ys hx hy =
    (hx.0, AllProper-append key (hears key b x) xs ys hx.1 hy)

hears_all-append :
    (key : String) (b : Bool) (xs ys : List Issue)
    → hears_all key b (xs ++ ys) ≡ hears_all key (hears_all key b xs) ys
hears_all-append key b [] ys = refl
hears_all-append key b (x ∷ xs) ys = hears_all-append key (hears key b x) xs ys

pub append-AreRounds :
    (e d d' : Engine) (xs ys : List Issue)
    → AreRounds e (xs, d)
    → AreRounds d (ys, d')
    → AreRounds e (xs ++ ys, d')
append-AreRounds e d d' xs ys one rest = record {
  proper = λ key.
      AllProper-append key (told key e) xs ys (one.proper key)
        (subst (λ b. AllProper key b ys) (one.told_after key) (rest.proper key));
  told_after = λ key.
      rest.told_after key
      ∙ ap (λ b. hears_all key b ys) (one.told_after key)
      ∙ sym (hears_all-append key (told key e) xs ys);
  keyed = rest.keyed;
}
