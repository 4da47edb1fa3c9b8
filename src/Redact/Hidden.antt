-- ===== src/Redact/Hidden.antt =====
-- internal/redact/redact.go, maskAll: what is masked does not show, and the rest stays.
use nodux.Base.{
  ℕ, zero, suc, ◌+◌, ◌-◌, ◌≤◌, ◌<◌, ◌≡◌, refl, sym, ap, ap₂, subst, append-nil, ◌∙◌, Bool, false,
  ◌&&◌, List, [], ◌∷◌, ◌++◌, any, length, length-drop, drop, arith, leb, ltb,
}
use nodux.Detector.Truncate.{byte_at, prefix}
use nodux.Redact.{Match, mask, slice, masked_span, mask_from, mask_any, mask_all, Regexp}

-- What regexp documents: matches follow one another inside the text, and a group lies inside its match.
abbrev pub Ordered : ℕ → ℕ → List Match → Type 0
Ordered lo n [] = lo ≤ n
Ordered lo n (m ∷ ms) =
    (lo ≤ (masked_span m).start)
    × ((masked_span m).start ≤ (masked_span m).end_)
    × Ordered (masked_span m).end_ n ms

-- A position inside a span that is masked.
abbrev pub inside : ℕ → Match → Bool
inside i m = leb (masked_span m).start i && ltb i (masked_span m).end_

abbrev pub covered : ℕ → List Match → Bool
covered i ms = any (inside i) ms

-- The next span that is masked, if there is one, begins later.
abbrev pub Later : ℕ → List Match → Type 0
Later i [] = Unit
Later i (m ∷ ms) = i < (masked_span m).start

-- What becomes of the rest of a text from a position on, byte by byte: a byte before the next span is kept,
-- and where a span begins there is one mask for all of it.
pub data Masked : ℕ → List ℕ → List Match → List ℕ → Type 0 where
  done : {i : ℕ} → Masked i [] [] []
  shows :
      {i x : ℕ} {s out : List ℕ} {ms : List Match}
      → Later i ms
      → Masked (suc i) s ms out
      → Masked i (x ∷ s) ms (x ∷ out)
  hides :
      {i : ℕ} {s out : List ℕ} {m : Match} {ms : List Match}
      → (masked_span m).start ≡ i
      → Masked (masked_span m).end_ (drop ((masked_span m).end_ - i) s) ms out
      → Masked i s (m ∷ ms) (mask ++ out)

prefix-same :
    (n : ℕ) (s t : List ℕ)
    → length s ≡ length t
    → ((i : ℕ) → i < n → byte_at s i ≡ byte_at t i)
    → prefix n s ≡ prefix n t
unfolding prefix byte_at
prefix-same zero s t l h = refl
prefix-same (suc n) [] [] l h = refl
prefix-same (suc n) [] (y ∷ t) l h = absurd (omega (arith, l))
prefix-same (suc n) (x ∷ s) [] l h = absurd (omega (arith, l))
prefix-same (suc n) (x ∷ s) (y ∷ t) l h =
    ap₂ (λ a b. a ∷ b) (h 0 (omega arith))
      (prefix-same n s t (omega (arith, l)) (λ i lt. h (suc i) (omega arith)))

drop-same :
    (a n : ℕ) (s t : List ℕ)
    → length s ≡ length t
    → ((i : ℕ) → a ≤ i → i < a + n → byte_at s i ≡ byte_at t i)
    → prefix n (drop a s) ≡ prefix n (drop a t)
unfolding byte_at
drop-same zero n s t l h = prefix-same n s t l (λ i lt. h i (omega arith) (omega arith))
drop-same (suc a) n [] [] l h = refl
drop-same (suc a) n [] (y ∷ t) l h = absurd (omega (arith, l))
drop-same (suc a) n (x ∷ s) [] l h = absurd (omega (arith, l))
drop-same (suc a) n (x ∷ s) (y ∷ t) l h =
    drop-same a n s t (omega (arith, l)) (λ i le lt. h (suc i) (omega arith) (omega arith))

slice-same :
    (a b : ℕ) (s t : List ℕ)
    → length s ≡ length t
    → ((i : ℕ) → a ≤ i → i < b → byte_at s i ≡ byte_at t i)
    → slice s a b ≡ slice t a b
unfolding slice
slice-same a b s t l h = drop-same a (b - a) s t l (λ i le lt. h i le (omega arith))

uncovered : (lo n i : ℕ) (ms : List Match) → Ordered lo n ms → i < lo → covered i ms ≡ false
unfolding any
uncovered lo n i [] o lt = refl
uncovered lo n i (m ∷ ms) o lt = ground (arith, uncovered (masked_span m).end_ n i ms)

Ordered-le : (lo n : ℕ) (ms : List Match) → Ordered lo n ms → lo ≤ n
Ordered-le lo n [] o = o
Ordered-le lo n (m ∷ ms) o = omega (arith, o.0, o.1, Ordered-le (masked_span m).end_ n ms o.2)

-- A position before the first span, and one after it.
gap-uncovered :
    (n i : ℕ) (m : Match) (ms : List Match)
    → (masked_span m).start ≤ (masked_span m).end_
    → Ordered (masked_span m).end_ n ms
    → i < (masked_span m).start
    → covered i (m ∷ ms) ≡ false
unfolding any
gap-uncovered n i m ms le o lt =
    ground (arith, le, lt, uncovered (masked_span m).end_ n i ms o (omega arith))

past-covered :
    (i : ℕ) (m : Match) (ms : List Match)
    → (masked_span m).end_ ≤ i
    → covered i (m ∷ ms) ≡ covered i ms
unfolding any
past-covered i m ms le = ground (arith, le)

mask_from-same :
    (s t : List ℕ) (last : ℕ) (ms : List Match)
    → Ordered last (length s) ms
    → length s ≡ length t
    → ((i : ℕ) → last ≤ i → i < length s → covered i ms ≡ false → byte_at s i ≡ byte_at t i)
    → mask_from s last ms ≡ mask_from t last ms
unfolding mask_from any
mask_from-same s t last [] o l h =
    slice-same last (length s) s t l (λ i le lt. h i le lt refl) ∙ ap (slice t last) l
mask_from-same s t last (m ∷ ms) o l h =
    ap₂ (λ a b. a ++ (mask ++ b))
      (slice-same last (masked_span m).start s t l (λ i le lt.
        h i le (omega (arith, lt, o.1, Ordered-le (masked_span m).end_ (length s) ms o.2))
          (gap-uncovered (length s) i m ms o.1 o.2 lt)))
      (mask_from-same s t (masked_span m).end_ ms o.2 l
        (λ i le lt free. h i (omega (arith, le, o.0, o.1)) lt (past-covered i m ms le ∙ free)))

-- The next span begins at a position or later.
abbrev NotBefore : ℕ → List Match → Type 0
NotBefore i [] = Unit
NotBefore i (m ∷ ms) = i ≤ (masked_span m).start

later : (i j : ℕ) (ms : List Match) → i < j → NotBefore j ms → Later i ms
later i j [] lt h = tt
later i j (m ∷ ms) lt h = omega (arith, lt, h)

-- A slice before the next span is kept.
shown :
    (n i j : ℕ) (s out : List ℕ) (ms : List Match)
    → j ≡ i + n
    → n ≤ length s
    → NotBefore j ms
    → Masked j (drop n s) ms out
    → Masked i s ms (prefix n s ++ out)
unfolding prefix
shown zero i j s out ms e le h k =
    let same : j ≡ i = omega (arith, e) in subst (λ i. Masked i s ms out) same k
shown (suc n) i j [] out ms e le h k = absurd (omega (arith, le))
shown (suc n) i j (x ∷ s) out ms e le h k =
    shows (later i j ms (omega (arith, e)) h)
      (shown n (suc i) j s out ms (omega (arith, e)) (omega (arith, le)) h k)

drop-all : (n : ℕ) (s : List ℕ) → length s ≤ n → drop n s ≡ []
drop-all zero [] le = refl
drop-all zero (x ∷ s) le = absurd (omega (arith, le))
drop-all (suc n) [] le = refl
drop-all (suc n) (x ∷ s) le = drop-all n s (omega (arith, le))

drop-drop : (a b : ℕ) (s : List ℕ) → drop a (drop b s) ≡ drop (b + a) s
drop-drop a zero s = ap (λ (n : ℕ). drop n s) (omega arith)
drop-drop a (suc b) [] = drop-all a [] (omega arith) ∙ sym (drop-all (suc b + a) [] (omega arith))
drop-drop a (suc b) (x ∷ s) =
    let same : suc (b + a) ≡ suc b + a = omega arith in
    drop-drop a b s ∙ ap (λ (n : ℕ). drop n (x ∷ s)) same

mask_from-Masked :
    (s : List ℕ) (last : ℕ) (ms : List Match)
    → Ordered last (length s) ms
    → Masked last (drop last s) ms (mask_from s last ms)
unfolding mask_from slice
mask_from-Masked s last [] o =
    let n = length s - last in
    subst (λ out. Masked last (drop last s) [] out) (append-nil (prefix n (drop last s)))
      (shown n last (length s) (drop last s) [] [] (omega (arith, o))
        (omega (arith, length-drop last s)) tt
        (subst (λ rest. Masked (length s) rest [] [])
          (sym (drop-all n (drop last s) (omega (arith, length-drop last s)))) done))
mask_from-Masked s last (m ∷ ms) o =
    let sp = masked_span m in
    let n = sp.start - last in
    let fits = Ordered-le sp.end_ (length s) ms o.2 in
    shown n last sp.start (drop last s) (mask ++ mask_from s sp.end_ ms) (m ∷ ms)
      (omega (arith, o.0)) (omega (arith, o.0, o.1, fits, length-drop last s)) (omega arith)
      (hides refl (
        subst (λ rest. Masked sp.end_ rest ms (mask_from s sp.end_ ms))
          (sym (whole sp.start sp.end_ o.0 o.1)) (mask_from-Masked s sp.end_ ms o.2)))
  where
    whole : (a b : ℕ) → last ≤ a → a ≤ b → drop (b - a) (drop (a - last) (drop last s)) ≡ drop b s
    whole a b le le' =
        let one : last + (a - last) ≡ a = omega arith in
        let two : a + (b - a) ≡ b = omega arith in
        ap (drop (b - a)) (drop-drop (a - last) last s ∙ ap (λ (n : ℕ). drop n s) one)
        ∙ drop-drop (b - a) a s
        ∙ ap (λ (n : ℕ). drop n s) two

prefix-all : (s : List ℕ) → prefix (length s) s ≡ s
unfolding prefix
prefix-all [] = refl
prefix-all (x ∷ s) = ap (◌∷◌ x) (prefix-all s)

-- The early return gives what the loop would.
mask_any-mask_from : (s : List ℕ) (ms : List Match) → mask_any s ms ≡ mask_from s 0 ms
unfolding mask_any mask_from slice
mask_any-mask_from s [] =
    let whole : length s ≡ length s - 0 = omega arith in
    sym (prefix-all s) ∙ ap (λ (n : ℕ). prefix n s) whole
mask_any-mask_from s (m ∷ ms) = refl

mask_all-mask_from : (re : Regexp) (s : List ℕ) → mask_all re s ≡ mask_from s 0 (re s)
unfolding mask_all
mask_all-mask_from re s = mask_any-mask_from s (re s)

-- Where the matches of a pattern follow one another inside the text: the result is the text with each span
-- that is masked replaced by one mask, in its place, and every other byte kept in its order. And a text of
-- the same length in which the pattern has the same matches, and which differs only where they mask, becomes
-- the same text, so what was masked has no influence on the result.
pub mask_all-hides :
    (re : Regexp) (s t : List ℕ)
    → Ordered 0 (length s) (re s)
    → re t ≡ re s
    → length s ≡ length t
    → ((i : ℕ) → i < length s → covered i (re s) ≡ false → byte_at s i ≡ byte_at t i)
    → Masked 0 s (re s) (mask_all re s) × (mask_all re s ≡ mask_all re t)
mask_all-hides re s t o same l h =
    let masked = mask_all-mask_from re s in
    (
      subst (λ out. Masked 0 s (re s) out) (sym masked) (mask_from-Masked s 0 (re s) o),
      masked
          ∙ mask_from-same s t 0 (re s) o l (λ i le lt free. h i lt free)
          ∙ ap (mask_from t 0) (sym same)
          ∙ sym (mask_all-mask_from re t),
    )
