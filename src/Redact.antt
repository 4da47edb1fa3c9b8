-- ===== src/Redact.antt =====
-- internal/redact/redact.go: masking what the patterns find. A text is its bytes, and what package regexp
-- finds in a text is a parameter.
pub mod Hidden
pub mod Tests
use nodux.Base.{
  ℕ, ◌-◌, Bool, true, false, ◌&&◌, String, List, [], ◌∷◌, ◌++◌, Option, none, some, if◌then◌else◌,
  is_empty, length, drop, or_else, string_eq,
}
use Prim.Native.String.{◌++◌ as str_append}
use nodux.Detector.Truncate.{prefix}

pub record Span : Type 0 where
  pub start : ℕ
  pub end_ : ℕ

-- One match, and the part of it that the group "secret" found, where the pattern has one that took part.
pub record Match : Type 0 where
  pub whole : Span
  pub secret : Option Span

-- `FindAllStringSubmatchIndex` of a compiled pattern.
abbrev pub Regexp : Type 0
Regexp = List ℕ → List Match

-- "[REDACTED]".
abbrev pub mask : List ℕ
mask = 0x5B ∷ 0x52 ∷ 0x45 ∷ 0x44 ∷ 0x41 ∷ 0x43 ∷ 0x54 ∷ 0x45 ∷ 0x44 ∷ 0x5D ∷ []

-- `s[a:b]`.
unfoldable pub slice : List ℕ → ℕ → ℕ → List ℕ
slice s a b = prefix (b - a) (drop a s)

abbrev pub masked_span : Match → Span
masked_span m = or_else m.secret m.whole

-- The loop over the matches, with `last`.
unfoldable pub mask_from : List ℕ → ℕ → List Match → List ℕ
unfolding slice
mask_from s last [] = slice s last (length s)
mask_from s last (m ∷ ms) =
    slice s last (masked_span m).start ++ (mask ++ mask_from s (masked_span m).end_ ms)

-- Without a match the text is returned as it is.
unfoldable pub mask_any : List ℕ → List Match → List ℕ
mask_any s [] = s
mask_any s (m ∷ ms) = mask_from s 0 (m ∷ ms)

unfoldable pub mask_all : Regexp → List ℕ → List ℕ
unfolding mask_any
mask_all re s = mask_any s (re s)

-- `String` of a redactor with these patterns.
unfoldable pub redact : List Regexp → List ℕ → List ℕ
unfolding mask_all
redact [] s = s
redact (re ∷ res) s = redact res (mask_all re s)

-- `New`: `none` for a pattern that does not compile.
module _ (compile : String → Option Regexp) (default_patterns : List String) where
  unfoldable pub compile_all : List String → Option (List Regexp)
  compile_all [] = some []
  compile_all (p ∷ ps) =
      let rest = compile_all ps in
      elim (compile p) [
        | none ↦ none
        | some re ↦ elim rest [ none ↦ none | some res ↦ some (re ∷ res) ]
      ]

  unfoldable pub new : List String → Bool → Option (List Regexp)
  unfolding compile_all
  new patterns use_defaults =
      compile_all ((if use_defaults then default_patterns else []) ++ patterns)
