-- ===== src/Detector/Expected/Late.antt =====
-- internal/detector/expected.go: what one check reports, by what it knows since when a container is down.
use nodux.Base.{
  ℕ, ◌≡◌, refl, ap, subst, ◌∙◌, ◌+◌, Bool, true, not, ◌&&◌, ◌||◌, String, List, [], ◌∷◌, ◌++◌,
  Option, none, some, string_eq, nat_eq, ◌==◌, if◌then◌else◌, leb, any, or_else, arith,
}
use nodux.Dict.{Dict, lookup, retain, Distinct, kept, lookup-insert, lookup-delete, lookup-retain}
use nodux.Detector.Types.{Issue}
use nodux.Detector.Expected.{
  ExpectedDetector, wanted, holds, is_up, issue, check_name, add_issue, check_names, check,
}

abbrev pub reported : String → List Issue → Bool
reported name out = any (λ i. i.container.name == name) out

-- Since when a container is down, as of a check at `now`.
abbrev pub since : ℕ → String → Dict String ℕ → ℕ
since now name down = or_else (lookup name down) now

check_name-reported :
    (now : ℕ) (statuses : Dict String String) (grace : ℕ) (n name : String) (down : Dict String ℕ)
    (out : List Issue)
    → reported name (add_issue (check_name now statuses grace n down).0 out) ≡ (
        (n == name && (not (is_up (lookup name statuses)) && leb (since now name down + grace) now))
        || reported name out)
unfolding check_name issue any
check_name-reported now statuses grace n name down out = ground (arith, string_eq.test_iff n name)

check_name-since :
    (now : ℕ) (statuses : Dict String String) (grace : ℕ) (n name : String) (down : Dict String ℕ)
    → since now name (check_name now statuses grace n down).1
      ≡ (if n == name && is_up (lookup name statuses) then now else since now name down)
unfolding check_name
check_name-since now statuses grace n name down = ground (
  arith,
  string_eq.test_iff n name,
  lookup-insert n name (since now n down) down,
  lookup-delete n name down,
)

-- Whether a container has been down for the grace period.
abbrev pub is_late : ℕ → Dict String String → ℕ → String → Dict String ℕ → Bool
is_late now statuses grace name down =
    not (is_up (lookup name statuses)) && leb (since now name down + grace) now

late_rule :
    (same up listed : Bool) (now grace t : ℕ) {t' : ℕ}
    → t' ≡ (if same && up then now else t)
    → ((same && (not up && leb (t + grace) now)) || (listed && (not up && leb (t' + grace) now)))
      ≡ ((same || listed) && (not up && leb (t + grace) now))
late_rule same up listed now grace t h = ground (arith, h)

check_names-reported :
    (now : ℕ) (statuses : Dict String String) (grace : ℕ) (names : List String) (name : String)
    (down : Dict String ℕ)
    → reported name (check_names now statuses grace names down).0
      ≡ (holds names name && is_late now statuses grace name down)
unfolding check_names any
check_names-reported now statuses grace [] name down = refl
check_names-reported now statuses grace (n ∷ names) name down =
    let (o, down') = check_name now statuses grace n down in
    check_name-reported now statuses grace n name down
      (check_names now statuses grace names down').0
    ∙ ap (λ b. (n == name && is_late now statuses grace name down) || b)
        (check_names-reported now statuses grace names name down')
    ∙ late_rule (n == name) (is_up (lookup name statuses)) (holds names name) now grace
        (since now name down) (check_name-since now statuses grace n name down)

pub since-retain :
    (now : ℕ) (names : List String) (name : String) (down : Dict String ℕ)
    → Distinct down
    → holds names name ≡ true
    → since now name (retain (λ n t. holds names n) down) ≡ since now name down
since-retain now names name down d h =
    ap (λ o. or_else o now)
      (lookup-retain (λ n t. holds names n) name down d ∙ still (lookup name down))
  where
    still : (o : Option ℕ) → kept (λ n t. holds names n) name o ≡ o
    still none = refl
    still (some t) = ground (arith, h)

holds-append :
    (names : List String) (l name : String)
    → holds (names ++ l ∷ []) name ≡ (holds names name || l == name)
unfolding any
holds-append [] l name = ground arith
holds-append (n ∷ names) l name = ground (arith, holds-append names l name)

-- A name that is there already adds nothing.
holds-same :
    (names : List String) (l name : String)
    → holds names l ≡ true
    → (l == name) ≡ true
    → holds names name ≡ true
holds-same names l name h e =
    subst (λ n. holds names n ≡ true) (ground (arith, string_eq.test_iff l name, e)) h

pub holds-wanted :
    (names labeled : List String) (name : String)
    → holds (wanted names labeled) name ≡ (holds names name || holds labeled name)
unfolding wanted any
holds-wanted names [] name = ground arith
holds-wanted names (l ∷ labeled) name = ground (
  arith,
  holds-wanted (if holds names l then names else names ++ l ∷ []) labeled name,
  holds-append names l name,
  holds-same names l name,
)

and_rule : (w : Bool) {b c : Bool} → (w ≡ true → b ≡ c) → (w && b) ≡ (w && c)
and_rule w f = ground (arith, f)

pub check-is_late :
    (now : ℕ) (statuses : Dict String String) (labeled : List String) (d : ExpectedDetector)
    (name : String)
    → Distinct d.down_since
    → reported name (check now statuses labeled d).0 ≡ (
        (holds d.names name || holds labeled name)
        && is_late now statuses d.grace name d.down_since)
unfolding check
check-is_late now statuses labeled d name one =
    let names = wanted d.names labeled in
    check_names-reported now statuses d.grace names name
      (retain (λ n t. holds names n) d.down_since)
    ∙ and_rule (holds names name) (λ h.
      ap (λ t. not (is_up (lookup name statuses)) && leb (t + d.grace) now)
        (since-retain now names name d.down_since one h))
    ∙ ap (λ b. b && is_late now statuses d.grace name d.down_since)
        (holds-wanted d.names labeled name)
