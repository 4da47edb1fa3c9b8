-- ===== src/Detector/Truncate/Tests.antt =====
-- internal/detector/detector.go, Truncate: a text whose third character has two bytes, cut inside of it.
use nodux.Base.{ℕ, ◌≡◌, ◌≤◌, ◌<◌, ◌+◌, List, [], ◌∷◌, ◌++◌, length}
use nodux.Detector.Truncate.{IsCut, prefix, ellipsis, truncate_bytes, truncate_bytes-IsCut}

abbrev caf : List ℕ
caf = 0x63 ∷ 0x61 ∷ 0xC3 ∷ 0xA9 ∷ 0x21 ∷ []

truncate_bytes-IsCut_example :
    (length caf ≤ 3 → truncate_bytes caf 3 ≡ caf)
    × (3 < length caf
        → (c : ℕ) × IsCut caf 3 c
          × (truncate_bytes caf 3 ≡ prefix c caf ++ ellipsis)
          × (length (truncate_bytes caf 3) ≡ c + 3))
truncate_bytes-IsCut_example = truncate_bytes-IsCut caf 3
