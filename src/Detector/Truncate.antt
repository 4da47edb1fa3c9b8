-- ===== src/Detector/Truncate.antt =====
-- internal/detector/detector.go, Truncate: cutting a text to a number of bytes. A text is its bytes.
pub mod Tests
use nodux.Base.{
  ℕ, zero, suc, ◌≤◌, ◌<◌, ◌≡◌, ◌⊎◌, inl, inr, refl, Bool, true, false, not, ◌&&◌, String, List, [],
  ◌∷◌, ◌++◌, if◌then◌else◌, ltb, leb, length, length-append, arith, Bool-cases, if_rule, nat_eq,
  ◌==◌, le→leb, ap, ◌∙◌, ◌+◌,
}

-- The bytes of a text, and the text of bytes.
pub record Utf8 : Type 0 where
  pub bytes : String → List ℕ
  pub text : List ℕ → String

-- `s[i]`, where `i` is inside `s`.
unfoldable pub byte_at : List ℕ → ℕ → ℕ
byte_at [] i = 0
byte_at (b ∷ bs) zero = b
byte_at (b ∷ bs) (suc i) = byte_at bs i

-- `s[:n]`, where `n` is at most the length of `s`.
unfoldable pub prefix : ℕ → List ℕ → List ℕ
prefix zero bs = []
prefix (suc n) [] = []
prefix (suc n) (b ∷ bs) = b ∷ prefix n bs

-- `utf8.RuneStart`: not a byte that continues a sequence.
unfoldable pub rune_start : ℕ → Bool
rune_start b = not (leb 0x80 b && ltb b 0xC0)

-- The loop that goes back from `n`.
unfoldable pub cut_back : List ℕ → ℕ → ℕ
unfolding rune_start
cut_back s zero = 0
cut_back s (suc n) =
    let rest = cut_back s n in if rune_start (byte_at s (suc n)) then suc n else rest

-- "…" in UTF-8.
abbrev pub ellipsis : List ℕ
ellipsis = 0xE2 ∷ 0x80 ∷ 0xA6 ∷ []

unfoldable pub truncate_bytes : List ℕ → ℕ → List ℕ
truncate_bytes s n = if leb (length s) n then s else prefix (cut_back s n) s ++ ellipsis

unfoldable pub truncate : Utf8 → String → ℕ → String
truncate u s n = u.text (truncate_bytes (u.bytes s) n)

-- What a cut at most at `n` promises.
pub record IsCut (s : List ℕ) (n c : ℕ) : Type 0 where
  pub fits : c ≤ n
  pub between : (c ≡ 0) ⊎ (rune_start (byte_at s c) ≡ true)
  pub last : (k : ℕ) → c < k → k ≤ n → rune_start (byte_at s k) ≡ false

cut_back-IsCut : (s : List ℕ) (n : ℕ) → IsCut s n (cut_back s n)
unfolding cut_back
cut_back-IsCut s zero = record {
  fits = omega arith;
  between = inl refl;
  last = λ k a b. absurd (omega arith);
}
cut_back-IsCut s (suc n) =
    if_rule (IsCut s (suc n)) (rune_start (byte_at s (suc n)))
      (λ start. record {
        fits = omega arith;
        between = inr start;
        last = λ k a b. absurd (omega arith);
      })
      (λ inside. step_back s n inside (cut_back-IsCut s n))
  where
    step_back :
        (s : List ℕ) (n : ℕ)
        → rune_start (byte_at s (suc n)) ≡ false
        → IsCut s n (cut_back s n)
        → IsCut s (suc n) (cut_back s n)
    step_back s n inside c = record {
      fits = omega (arith, c.fits);
      between = c.between;
      last = λ k a b. elim (Bool-cases (k == suc n)) [
        | inl e ↦ rw ((nat_eq.test_iff k (suc n)).0 e) inside
        | inr d ↦ c.last k a (ground arith)
      ];
    }

length-prefix : (c : ℕ) (s : List ℕ) → c ≤ length s → length (prefix c s) ≡ c
unfolding prefix
length-prefix zero s h = refl
length-prefix (suc c) [] h = absurd (omega arith)
length-prefix (suc c) (b ∷ s) h = omega (arith, length-prefix c s)

-- A text of at most n bytes is left as it is. A longer one keeps a prefix of at most n bytes, the longest
-- that ends before the first byte of a UTF-8 sequence (or is empty), and the three bytes of the mark follow.
pub truncate_bytes-IsCut :
    (s : List ℕ) (n : ℕ)
    → (length s ≤ n → truncate_bytes s n ≡ s)
      × (n < length s
          → (c : ℕ) × IsCut s n c
            × (truncate_bytes s n ≡ prefix c s ++ ellipsis)
            × (length (truncate_bytes s n) ≡ c + 3))
unfolding truncate_bytes
truncate_bytes-IsCut s n = (
  λ short. rw (le→leb _ _ short),
  λ long.
      let cut = cut_back-IsCut s n in
      let kept : truncate_bytes s n ≡ prefix (cut_back s n) s ++ ellipsis = ground arith in
      (
        cut_back s n,
        cut,
        kept,
        ap length kept
            ∙ length-append (prefix (cut_back s n) s) ellipsis
            ∙ omega (arith, cut.fits, length-prefix (cut_back s n) s),
      ),
)
