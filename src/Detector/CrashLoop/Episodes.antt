-- ===== src/Detector/CrashLoop/Episodes.antt =====
-- internal/detector/crashloop.go: how the alert of an event and the episode that `Check` holds open
-- fit together.
use nodux.Base.{
  ℕ, ◌≡◌, refl, ap, sym, ◌∙◌, ◌+◌, ◌<◌, Bool, true, false, Bool-cases, Option-cases, inl, inr,
  subst, All, String, not, ◌||◌, List, [], ◌∷◌, ◌++◌, Option, none, some, string_eq, nat_eq, ◌==◌,
  ltb, select, length, is_zero, is_some, arith, any,
}
use mathlib.Core.Option.{some-injective}
use nodux.Detector.Exit.{observe}
use nodux.Dict.{lookup, insert, delete, lookup-insert, lookup-delete, lookup-insert_self}
use nodux.Detector.Types.{
  ContainerEvent, ContainerSnapshot, Issue, Action, create, start, kill, oom, die, destroy,
  health_status, other,
}
use nodux.Detector.Labels.{Parsers}
use nodux.Detector.CrashLoop.{
  CrashLoopState, CrashLoopDetector, check, check_state, prune, restart, restarted, handle_action,
  handle_event,
}

-- Whether a restart is in the window that ends now.
abbrev pub in_window : ℕ → CrashLoopState → Bool
in_window now st = any (λ t. ltb now (t + st.window)) st.restarts

select-any : (q : ℕ → Bool) (xs : List ℕ) → is_zero (length (select q xs)) ≡ not (any q xs)
unfolding select any
select-any q [] = refl
select-any q (x ∷ xs) = ground (arith, select-any q xs)

-- An open episode of a container goes on as long as a restart is in the window or the container does
-- not run, and ends then.
check-firing :
    (now : ℕ) (s : ContainerSnapshot) (d : CrashLoopDetector) (st : CrashLoopState)
    → lookup s.id d.state ≡ some st
    → st.firing ≡ true
    → is_some (check now s d).0 ≡ (in_window now st || not (s.status == "running"))
unfolding check check_state prune
check-firing now s d st h f =
    ground (arith, h, f, select-any (λ t. ltb now (t + st.window)) st.restarts)

-- What the detector knows of a container after a restart that is reported.
firing-restarted :
    (p : Parsers) (ev : ContainerEvent) (code : ℕ) (d : CrashLoopDetector)
    → is_some (restarted p ev code d).0 ≡ true
    → lookup ev.id (restarted p ev code d).1.state
      ≡ some (record (restart p ev d) { firing = true })
unfolding restarted
firing-restarted p ev code d h =
    ground (arith, h, lookup-insert_self ev.id (record (restart p ev d) { firing = true }) d.state)

any-last :
    (q r : ℕ → Bool) (t : ℕ) (xs : List ℕ)
    → q t ≡ true
    → r t ≡ true
    → any r (select q (xs ++ t ∷ [])) ≡ true
unfolding any select
any-last q r t [] a b = ground arith
any-last q r t (x ∷ xs) a b = ground (arith, any-last q r t xs a b)

-- The newest restart is among those that are kept.
newest-restart :
    (p : Parsers) (ev : ContainerEvent) (d : CrashLoopDetector)
    → 0 < (restart p ev d).window
    → any (λ u. u == ev.time) (restart p ev d).restarts ≡ true
unfolding restart prune
newest-restart p ev d pos =
    any-last _ _ ev.time _ (ground arith) ((nat_eq.test_iff ev.time ev.time).1 refl)

-- A container has an open episode, with a restart at `t` and a window.
pub record IsHeld (id : String) (t window : ℕ) (d : CrashLoopDetector) : Type 0 where
  pub state : CrashLoopState
  pub held : lookup id d.state ≡ some state
  pub firing : state.firing ≡ true
  pub restart_at : any (λ u. u == t) state.restarts ≡ true
  pub same_window : state.window ≡ window

any-in_window :
    (t now window : ℕ) (xs : List ℕ)
    → any (λ u. u == t) xs ≡ true
    → now < t + window
    → any (λ u. ltb now (u + window)) xs ≡ true
unfolding any
any-in_window t now window [] h lt = absurd (cc h)
any-in_window t now window (x ∷ xs) h lt =
    ground (arith, h, lt, any-in_window t now window xs, nat_eq.test_iff x t)

any-select :
    (t now window : ℕ) (xs : List ℕ)
    → any (λ u. u == t) xs ≡ true
    → now < t + window
    → any (λ u. u == t) (select (λ u. ltb now (u + window)) xs) ≡ true
unfolding any select
any-select t now window [] h lt = absurd (cc h)
any-select t now window (x ∷ xs) h lt =
    ground (arith, h, lt, any-select t now window xs, nat_eq.test_iff x t)

check-state :
    (now : ℕ) (s : ContainerSnapshot) (d : CrashLoopDetector) (st : CrashLoopState)
    → lookup s.id d.state ≡ some st
    → st.firing ≡ true
    → in_window now st ≡ true
    → (check now s d).1.state ≡ insert s.id (record (prune now st) { firing = true }) d.state
unfolding check check_state prune
check-state now s d st h f a =
    ground (arith, h, f, a, select-any (λ t. ltb now (t + st.window)) st.restarts)

check_state-other :
    (now : ℕ) (s : ContainerSnapshot) (id : String) (st : CrashLoopState) (d : CrashLoopDetector)
    → s.id == id ≡ false
    → lookup id (check_state now s st d).1.state ≡ lookup id d.state
unfolding check_state
check_state-other now s id st d e = ground (
  arith,
  e,
  lookup-delete s.id id d.state,
  lookup-insert s.id id st d.state,
  lookup-insert s.id id (record st { firing = true }) d.state,
)

check-other :
    (now : ℕ) (s : ContainerSnapshot) (id : String) (d : CrashLoopDetector)
    → s.id == id ≡ false
    → lookup id (check now s d).1.state ≡ lookup id d.state
unfolding check
check-other now s id d e = elim (Option-cases (lookup s.id d.state)) [
  | inl n ↦ rw (n, check)
  | inr (st, h) ↦ rw (h, check) (check_state-other now s id (prune now st) d e)
]

-- Within the window, a check of any container leaves the episode open.
check-IsHeld :
    (now : ℕ) (s : ContainerSnapshot) (id : String) (t window : ℕ) (d : CrashLoopDetector)
    → now < t + window
    → IsHeld id t window d
    → IsHeld id t window (check now s d).1
check-IsHeld now s id t window d lt k = elim (Bool-cases (s.id == id)) [
  | inl e ↦
      let same = (string_eq.test_iff s.id id).0 e in
      let after = check-state now s d k.state (ap (λ i. lookup i d.state) same ∙ k.held) k.firing (
        any-in_window t now k.state.window k.state.restarts k.restart_at
          (omega (arith, k.same_window))) in
      record {
        state = record (prune now k.state) { firing = true };
        held =
            ap (lookup id) after
            ∙ ap (λ i. lookup id (insert i (record (prune now k.state) { firing = true }) d.state))
                same
            ∙ lookup-insert_self id (record (prune now k.state) { firing = true }) d.state;
        firing = refl;
        restart_at =
            unfold prune in
            any-select t now k.state.window k.state.restarts k.restart_at
              (omega (arith, k.same_window));
        same_window = unfold prune in k.same_window;
      }
  | inr e ↦ record {
    state = k.state;
    held = check-other now s id d e ∙ k.held;
    firing = k.firing;
    restart_at = k.restart_at;
    same_window = k.same_window;
  }
]

-- Within the window, a check of the container reports it.
IsHeld-check :
    (now : ℕ) (s : ContainerSnapshot) (t window : ℕ) (d : CrashLoopDetector)
    → now < t + window
    → IsHeld s.id t window d
    → is_some (check now s d).0 ≡ true
IsHeld-check now s t window d lt k =
    check-firing now s d k.state k.held k.firing
    ∙ ap (λ b. b || not (s.status == "running"))
        (any-in_window t now k.state.window k.state.restarts k.restart_at
          (omega (arith, k.same_window)))

-- The detector after some checks, each at a time and of a snapshot.
abbrev pub run_checks : List (ℕ × ContainerSnapshot) → CrashLoopDetector → CrashLoopDetector
run_checks [] d = d
run_checks ((now, s) ∷ later) d = run_checks later (check now s d).1

run_checks-IsHeld :
    (cs : List (ℕ × ContainerSnapshot)) (id : String) (t window : ℕ) (d : CrashLoopDetector)
    → All (λ c. c.0 < t + window) cs
    → IsHeld id t window d
    → IsHeld id t window (run_checks cs d)
run_checks-IsHeld [] id t window d h k = k
run_checks-IsHeld ((now, s) ∷ later) id t window d h k =
    run_checks-IsHeld later id t window (check now s d).1 h.1
      (check-IsHeld now s id t window d h.0 k)

restarted-IsHeld :
    (p : Parsers) (ev : ContainerEvent) (code : ℕ) (d : CrashLoopDetector) (st : CrashLoopState)
    → is_some (restarted p ev code d).0 ≡ true
    → lookup ev.id (restarted p ev code d).1.state ≡ some st
    → 0 < st.window
    → IsHeld ev.id ev.time st.window (restarted p ev code d).1
restarted-IsHeld p ev code d st h l pos =
    let held = firing-restarted p ev code d h in
    let same = ap (λ s. s.window) (some-injective _ _ (sym held ∙ l)) in
    record {
      state = record (restart p ev d) { firing = true };
      held = held;
      firing = refl;
      restart_at = newest-restart p ev d (omega (arith, same, pos));
      same_window = same;
    }

handle_action-IsHeld :
    (p : Parsers) (a : Action) (ev : ContainerEvent) (d : CrashLoopDetector) (st : CrashLoopState)
    → is_some (handle_action p a ev d).0 ≡ true
    → lookup ev.id (handle_action p a ev d).1.state ≡ some st
    → 0 < st.window
    → IsHeld ev.id ev.time st.window (handle_action p a ev d).1
unfolding handle_action
handle_action-IsHeld p create ev d st h l pos = absurd (ground (arith, h))
handle_action-IsHeld p start ev d st h l pos = by_case (lookup ev.id d.crashed) h l
  where
    cleared : CrashLoopDetector
    cleared = record d { crashed = delete ev.id d.crashed }

    after : Option ℕ → Option Issue × CrashLoopDetector
    after none = (none, cleared)
    after (some code) = restarted p ev code cleared

    by_case :
        (o : Option ℕ)
        → is_some (after o).0 ≡ true
        → lookup ev.id (after o).1.state ≡ some st
        → IsHeld ev.id ev.time st.window (after o).1
    by_case none h' l' = absurd (ground (arith, h'))
    by_case (some code) h' l' = restarted-IsHeld p ev code cleared st h' l' pos
handle_action-IsHeld p kill ev d st h l pos = absurd (ground (arith, h))
handle_action-IsHeld p oom ev d st h l pos = absurd (ground (arith, h))
handle_action-IsHeld p die ev d st h l pos = absurd (ground (arith, h))
handle_action-IsHeld p destroy ev d st h l pos = absurd (ground (arith, h))
handle_action-IsHeld p health_status ev d st h l pos = absurd (ground (arith, h))
handle_action-IsHeld p other ev d st h l pos = absurd (ground (arith, h))

-- A restart that an event reports opens an episode that lasts: until the window that the detector keeps for
-- the container has passed since the restart, every check of it reports the container, whatever its status,
-- after whatever checks of this container and others came before it in that time. The window is not empty.
pub handle_event-check :
    (p : Parsers) (ev : ContainerEvent) (d : CrashLoopDetector) (st : CrashLoopState)
    (earlier : List (ℕ × ContainerSnapshot)) (s : ContainerSnapshot) (now : ℕ)
    → is_some (handle_event p ev d).0 ≡ true
    → lookup ev.id (handle_event p ev d).1.state ≡ some st
    → 0 < st.window
    → All (λ c. c.0 < ev.time + st.window) earlier
    → s.id ≡ ev.id
    → now < ev.time + st.window
    → is_some (check now s (run_checks earlier (handle_event p ev d).1)).0 ≡ true
unfolding handle_event
handle_event-check p ev d st earlier s now h l pos before same lt =
    let opened =
      handle_action-IsHeld p ev.action ev (record d { stops = observe ev d.stops }) st h l pos in
    IsHeld-check now s ev.time st.window _ lt (
      subst (λ id. IsHeld id ev.time st.window (run_checks earlier (handle_event p ev d).1))
        (sym same) (run_checks-IsHeld earlier ev.id ev.time st.window _ before opened))
