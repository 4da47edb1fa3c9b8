-- ===== src/Redact/Tests.antt =====
-- internal/redact/redact.go: a password in a line of a log, and another one of the same length.
use nodux.Base.{ℕ, ◌<◌, ◌≡◌, refl, false, List, [], ◌∷◌, some, length, any, arith, zero, suc}
use nodux.Detector.Truncate.{byte_at}
use nodux.Redact.{Regexp, mask_all}
use nodux.Redact.Hidden.{covered, Masked, mask_all-hides}

-- "p=ab;" and "p=cd;".
abbrev first_line : List ℕ
first_line = 0x70 ∷ 0x3D ∷ 0x61 ∷ 0x62 ∷ 0x3B ∷ []

abbrev second_line : List ℕ
second_line = 0x70 ∷ 0x3D ∷ 0x63 ∷ 0x64 ∷ 0x3B ∷ []

abbrev password : Regexp
password s =
    record {
      whole = record { start = 0; end_ = 4 };
      secret = some (record { start = 2; end_ = 4 });
    }
    ∷ []

outside_same :
    (i : ℕ)
    → i < length first_line
    → covered i (password first_line) ≡ false
    → byte_at first_line i ≡ byte_at second_line i
unfolding any byte_at
outside_same zero lt h = refl
outside_same (suc zero) lt h = refl
outside_same (suc (suc zero)) lt h = ground arith
outside_same (suc (suc (suc zero))) lt h = ground arith
outside_same (suc (suc (suc (suc i)))) lt h = ground arith

mask_all-hides_example :
    Masked 0 first_line (password first_line) (mask_all password first_line)
    × (mask_all password first_line ≡ mask_all password second_line)
mask_all-hides_example =
    mask_all-hides password first_line second_line (omega arith) refl refl outside_same
