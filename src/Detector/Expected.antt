-- ===== src/Detector/Expected.antt =====
-- internal/detector/expected.go. The map of what is wanted is only read, so it is a test here.
pub mod Late
pub mod Grace
pub mod Tests
use nodux.Base.{
  ℕ, ◌+◌, Bool, true, false, not, ◌&&◌, ◌||◌, String, List, [], ◌∷◌, ◌++◌, Option, none, some,
  string_eq, ◌==◌, if◌then◌else◌, ltb, any, or_else,
}
use nodux.Dict.{Dict, lookup, insert, delete, retain, overlay}
use nodux.Detector.Types.{Issue, Message, literal, no_issue, no_container, severity_critical}

pub record ExpectedDetector : Type 0 where
  pub names : List String
  pub grace : ℕ
  pub down_since : Dict String ℕ

unfoldable pub new : List String → ℕ → ExpectedDetector
new names grace = record { names = names; grace = grace; down_since = [] }

abbrev pub holds : List String → String → Bool
holds names name = any (λ n. n == name) names

-- The loop over the labeled names: those that are not yet wanted come behind the configured ones.
unfoldable pub wanted : List String → List String → List String
wanted names [] = names
wanted names (name ∷ labeled) =
    wanted (if holds names name then names else names ++ name ∷ []) labeled

abbrev pub is_up : Option String → Bool
is_up none = false
is_up (some status) = status == "running" || status == "restarting"

abbrev message : Option String → Message
message none = literal "expected container does not exist" ∷ []
message (some status) =
    literal "expected container is not running (status: " ∷ literal status ∷ literal ")" ∷ []

unfoldable pub issue : ℕ → String → Option String → Issue
issue now name status = record no_issue {
  detector = "expected";
  severity = severity_critical;
  message = message status;
  container = record no_container { name = name; status = or_else status "" };
  detected_at = now;
}

-- One round of the loop over the names.
unfoldable pub check_name :
    ℕ → Dict String String → ℕ → String → Dict String ℕ → Option Issue × Dict String ℕ
check_name now statuses grace name down =
    let since = or_else (lookup name down) now in
    if is_up (lookup name statuses) then (none, delete name down) else (
      (if ltb now (since + grace) then none else some (issue now name (lookup name statuses))),
      insert name since down,
    )

abbrev pub add_issue : Option Issue → List Issue → List Issue
add_issue none out = out
add_issue (some i) out = i ∷ out

unfoldable pub check_names :
    ℕ → Dict String String → ℕ → List String → Dict String ℕ → List Issue × Dict String ℕ
check_names now statuses grace [] down = ([], down)
check_names now statuses grace (name ∷ names) down =
    let (o, down') = check_name now statuses grace name down in
    let (out, down'') = check_names now statuses grace names down' in (add_issue o out, down'')

unfoldable pub check :
    ℕ → Dict String String → List String → ExpectedDetector → List Issue × ExpectedDetector
check now statuses labeled d =
    let names = wanted d.names labeled in
    let (out, down) =
      check_names now statuses d.grace names (retain (λ name t. holds names name) d.down_since) in
    (out, record d { down_since = down })

unfoldable pub save_state : ExpectedDetector → Dict String ℕ
save_state d = d.down_since

unfoldable pub load_state : Dict String ℕ → ExpectedDetector → ExpectedDetector
load_state down_since d = record d { down_since = overlay down_since d.down_since }
