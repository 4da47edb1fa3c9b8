-- ===== src/Detector/Expected/Grace.antt =====
-- internal/detector/expected.go: how long a container is down before it is reported.
use nodux.Base.{
  ℕ, ◌≡◌, refl, ap, ◌∙◌, ◌+◌, Bool, true, false, if_rule, not, ◌&&◌, ◌||◌, String, List, [], ◌∷◌,
  Option, none, some, string_eq, nat_eq, ◌==◌, if◌then◌else◌, leb, any, or_else, arith,
}
use nodux.Dict.{
  Dict, lookup, retain, Distinct, Distinct-insert, Distinct-delete, Distinct-retain, kept,
  lookup-insert, lookup-delete, lookup-retain,
}
use nodux.Detector.Types.{Issue}
use nodux.Detector.Expected.{
  ExpectedDetector, new, wanted, holds, is_up, check_name, check_names, check,
}
use nodux.Detector.Expected.Late.{reported, since, check-is_late, since-retain, holds-wanted}

check_name-lookup :
    (now : ℕ) (statuses : Dict String String) (grace : ℕ) (n name : String) (down : Dict String ℕ)
    → lookup name (check_name now statuses grace n down).1 ≡ (
        if n == name
        then (if is_up (lookup name statuses) then none else some (since now name down))
        else lookup name down)
unfolding check_name
check_name-lookup now statuses grace n name down = ground (
  arith,
  string_eq.test_iff n name,
  lookup-insert n name (since now n down) down,
  lookup-delete n name down,
)

check_names-lookup :
    (now : ℕ) (statuses : Dict String String) (grace : ℕ) (names : List String) (name : String)
    (down : Dict String ℕ)
    → lookup name (check_names now statuses grace names down).1 ≡ (
        if holds names name
        then (if is_up (lookup name statuses) then none else some (since now name down))
        else lookup name down)
unfolding check_names any
check_names-lookup now statuses grace [] name down = refl
check_names-lookup now statuses grace (n ∷ names) name down =
    let down' = (check_name now statuses grace n down).1 in
    check_names-lookup now statuses grace names name down'
    ∙ again (n == name) (is_up (lookup name statuses)) (holds names name) (lookup name down)
        (check_name-lookup now statuses grace n name down)
  where
    again :
        (same up rest : Bool) (o : Option ℕ) {o' : Option ℕ}
        → o' ≡ (if same then (if up then none else some (or_else o now)) else o)
        → (if rest then (if up then none else some (or_else o' now)) else o')
          ≡ (if same || rest then (if up then none else some (or_else o now)) else o)
    again same up rest o h = ground (arith, h)

check_names-Distinct :
    (now : ℕ) (statuses : Dict String String) (grace : ℕ) (names : List String)
    (down : Dict String ℕ)
    → Distinct down
    → Distinct (check_names now statuses grace names down).1
unfolding check_names check_name
check_names-Distinct now statuses grace [] down d = d
check_names-Distinct now statuses grace (n ∷ names) down d =
    check_names-Distinct now statuses grace names _ (
      if_rule (λ (r : Option Issue × Dict String ℕ). Distinct r.1) (is_up (lookup n statuses))
        (λ up. Distinct-delete n down d) (λ off. Distinct-insert n (since now n down) down d))

-- A check: its time, what it is shown, and the names that labels give.
pub record Round : Type 0 where
  pub now : ℕ
  pub statuses : Dict String String
  pub labeled : List String

-- The detector after some checks, the newest first.
abbrev pub run : ExpectedDetector → List Round → ExpectedDetector
run d [] = d
run d (r ∷ older) = (check r.now r.statuses r.labeled (run d older)).1

-- A container is wanted in a check, and neither runs nor restarts.
abbrev pub down_at : String → List String → Round → Bool
down_at name names r =
    (holds names name || holds r.labeled name) && not (is_up (lookup name r.statuses))

-- When the checks began that found a container down without a break up to one at `now`.
abbrev pub first_down : String → List String → List Round → ℕ → ℕ
first_down name names [] now = now
first_down name names (r ∷ older) now =
    if down_at name names r then first_down name names older r.now else now

check-Distinct :
    (r : Round) (d : ExpectedDetector)
    → Distinct d.down_since
    → Distinct (check r.now r.statuses r.labeled d).1.down_since
unfolding check
check-Distinct r d one = check_names-Distinct r.now r.statuses d.grace _ _ (Distinct-retain _ _ one)

check-since :
    (r : Round) (d : ExpectedDetector) (name : String)
    → Distinct d.down_since
    → lookup name (check r.now r.statuses r.labeled d).1.down_since
      ≡ (if down_at name d.names r then some (since r.now name d.down_since) else none)
unfolding check
check-since r d name one =
    let names = wanted d.names r.labeled in
    let before = retain (λ n t. holds names n) d.down_since in
    check_names-lookup r.now r.statuses d.grace names name before
    ∙ by_wanted (holds names name) (is_up (lookup name r.statuses)) (lookup name before)
        (since-retain r.now names name d.down_since one) (gone names)
    ∙ ap
        (λ b.
          if b && not (is_up (lookup name r.statuses))
          then some (since r.now name d.down_since)
          else none)
        (holds-wanted d.names r.labeled name)
  where
    gone :
        (names : List String)
        → holds names name ≡ false
        → lookup name (retain (λ n t. holds names n) d.down_since) ≡ none
    gone names h =
        lookup-retain (λ n t. holds names n) name d.down_since one
        ∙ dropped (lookup name d.down_since)
      where
        dropped : (o : Option ℕ) → kept (λ n t. holds names n) name o ≡ none
        dropped none = refl
        dropped (some t) = ground (arith, h)

    by_wanted :
        (w up : Bool) (o : Option ℕ)
        → (w ≡ true → or_else o r.now ≡ since r.now name d.down_since)
        → (w ≡ false → o ≡ none)
        → (if w then (if up then none else some (or_else o r.now)) else o)
          ≡ (if w && not up then some (since r.now name d.down_since) else none)
    by_wanted w up o f g = ground (arith, f, g)

run-kept :
    (d : ExpectedDetector) (rounds : List Round)
    → ((run d rounds).names ≡ d.names) × ((run d rounds).grace ≡ d.grace)
unfolding check
run-kept d [] = (refl, refl)
run-kept d (r ∷ older) = run-kept d older

run-Distinct :
    (d : ExpectedDetector) (rounds : List Round)
    → Distinct d.down_since
    → Distinct (run d rounds).down_since
run-Distinct d [] one = one
run-Distinct d (r ∷ older) one = check-Distinct r (run d older) (run-Distinct d older one)

run-since :
    (names : List String) (grace : ℕ) (rounds : List Round) (name : String) (now : ℕ)
    → since now name (run (new names grace) rounds).down_since ≡ first_down name names rounds now
unfolding new
run-since names grace [] name now = unfold lookup in refl
run-since names grace (r ∷ older) name now =
    let d = run (new names grace) older in
    ap (λ o. or_else o now)
      (check-since r d name (run-Distinct (new names grace) older tt)
        ∙ ap (λ ns. if down_at name ns r then some (since r.now name d.down_since) else none)
            (run-kept (new names grace) older).0)
    ∙ by_down (down_at name names r) (run-since names grace older name r.now)
  where
    by_down :
        (b : Bool) {t t' : ℕ}
        → t ≡ t'
        → or_else (if b then some t else none) now ≡ (if b then t' else now)
    by_down true h = h
    by_down false h = refl

-- After any checks from the start, a check reports a container exactly if its name is configured or labeled,
-- it is neither running nor restarting, and the grace period has passed since the first of the checks up to
-- this one that found it so without a break.
pub check-reported :
    (names : List String) (grace : ℕ) (rounds : List Round) (r : Round) (name : String)
    → reported name (check r.now r.statuses r.labeled (run (new names grace) rounds)).0
      ≡ (down_at name names r && leb (first_down name names rounds r.now + grace) r.now)
unfolding new
check-reported names grace rounds r name =
    let d = run (new names grace) rounds in
    let kept_options = run-kept (new names grace) rounds in
    check-is_late r.now r.statuses r.labeled d name (run-Distinct (new names grace) rounds tt)
    ∙ same_test (holds d.names name) (holds names name) (holds r.labeled name)
        (is_up (lookup name r.statuses)) (since r.now name d.down_since) d.grace
        (ap (λ ns. holds ns name) kept_options.0) (run-since names grace rounds name r.now)
        kept_options.1
  where
    same_test :
        (h h' l up : Bool) (t g : ℕ) {t' g' : ℕ}
        → h ≡ h'
        → t ≡ t'
        → g ≡ g'
        → ((h || l) && (not up && leb (t + g) r.now))
          ≡ (((h' || l) && not up) && leb (t' + g') r.now)
    same_test h h' l up t g a b c = ground (arith, a, b, c)
