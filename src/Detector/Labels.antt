-- ===== src/Detector/Labels.antt =====
-- internal/detector/labels.go: the container labels that tune the detectors. What the code takes from
-- strconv, strings and time is a record of functions.
use nodux.Base.{
  ℕ, suc, ◌*◌, ◌%◌, ◌^◌, ◌-◌, ltb, or_else, Bool, true, false, not, ◌||◌, String, List, [], ◌∷◌,
  Option, none, some, string_eq, ◌==◌, if◌then◌else◌, is_empty, ℤ, pos, negsuc, is_zero,
}
use Prim.Native.String.{◌++◌ as str_append}
use text.Mathlib.Text.{starts_with}
use mathlib.Core.Option.{map}
use nodux.Dict.{lookup, retain}
use nodux.Detector.Types.{Labels, label_compose_project}

-- `strings.TrimSpace`, `strings.Split(_, ",")`, `strconv.ParseBool`, `strconv.Atoi` and
-- `time.ParseDuration`, with `none` for an error.
pub record Parsers : Type 0 where
  pub trim_space : String → String
  pub split_comma : String → List String
  pub parse_bool : String → Option Bool
  pub atoi : String → Option ℤ
  pub parse_go_duration : String → Option ℤ

abbrev pub second : ℕ
second = 1000000000

abbrev pub of_positive : Option ℤ → Option ℕ
of_positive none = none
of_positive (some (negsuc n)) = none
of_positive (some (pos n)) = if is_zero n then none else some n

abbrev pub of_not_negative : Option ℤ → Option ℕ
of_not_negative none = none
of_not_negative (some (negsuc n)) = none
of_not_negative (some (pos n)) = some n

-- The two's complement number of 64 bits.
abbrev wrap : ℕ → ℤ
wrap n = let m = n % 2 ^ 64 in if ltb m (2 ^ 63) then pos m else negsuc (2 ^ 64 - m - 1)

-- `time.Duration(n) * time.Second`.
unfoldable seconds : ℤ → ℤ
seconds (pos n) = wrap (n * second)
seconds (negsuc n) = wrap (2 ^ 64 - (suc n * second) % 2 ^ 64)

module _ (p : Parsers) where
  unfoldable pub label_bool : Labels → String → Option Bool
  label_bool labels key = elim (lookup key labels) [
    | none ↦ none
    | some raw ↦ p.parse_bool (p.trim_space raw)
  ]

  unfoldable pub label_positive_int : Labels → String → Option ℕ
  label_positive_int labels key = elim (lookup key labels) [
    | none ↦ none
    | some raw ↦ of_positive (p.atoi (p.trim_space raw))
  ]

  unfoldable parse_duration : String → Option ℤ
  unfolding seconds
  parse_duration s =
      let t = p.trim_space s in
      elim (p.atoi t) [ some n ↦ some (seconds n) | none ↦ p.parse_go_duration t ]

  unfoldable pub label_duration : Labels → String → Option ℕ
  unfolding parse_duration
  label_duration labels key = elim (lookup key labels) [
    | none ↦ none
    | some raw ↦ of_not_negative (parse_duration raw)
  ]

  -- The loop of `labelInts` over the parts.
  unfoldable ints : List String → Option (List ℤ)
  ints [] = some []
  ints (part ∷ parts) =
      let rest = ints parts in
      if is_empty (p.trim_space part)
      then rest
      else elim (p.atoi (p.trim_space part)) [ none ↦ none | some n ↦ map (λ ns. n ∷ ns) rest ]

  unfoldable pub label_ints : Labels → String → Option (List ℤ)
  unfolding ints
  label_ints labels key = elim (lookup key labels) [
    | none ↦ none
    | some raw ↦ ints (p.split_comma raw)
  ]

  unfoldable pub excluded : Labels → Bool
  excluded labels = elim (label_bool labels "nodux.enable") [
    | none ↦ false
    | some enabled ↦ not enabled
  ]

  unfoldable pub enabled : Labels → String → Bool
  enabled labels detector =
      or_else (label_bool labels (str_append (str_append "nodux." detector) ".enable")) true

  unfoldable pub expected_by_label : Labels → Bool
  expected_by_label labels = or_else (label_bool labels "nodux.expected") false

unfoldable pub relevant_labels : Labels → Labels
relevant_labels attrs =
    retain
      (λ k v.
        starts_with k "nodux." || k == label_compose_project || k == "com.docker.compose.service")
      attrs
