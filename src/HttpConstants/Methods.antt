-- ===== src/HttpConstants/Methods.antt =====
-- src/http_constants.cc and src/http_constants.h: the versions and the methods, by the numbers of
-- their enumerators, and their texts.
use latypus.Common.{ℕ, List, [], ◌∷◌}

-- `kHTTPMethodTable`, up to its last entry
unfoldable pub method_table : List (ℕ × List ℕ)
method_table =
    (0, [])
    ∷ (1, (b'G' ∷ b'E' ∷ b'T' ∷ []))
    ∷ (2, (b'H' ∷ b'E' ∷ b'A' ∷ b'D' ∷ []))
    ∷ (3, (b'P' ∷ b'O' ∷ b'S' ∷ b'T' ∷ []))
    ∷ (4, (b'P' ∷ b'U' ∷ b'T' ∷ []))
    ∷ (5, (b'D' ∷ b'E' ∷ b'L' ∷ b'E' ∷ b'T' ∷ b'E' ∷ []))
    ∷ (6, (b'O' ∷ b'P' ∷ b'T' ∷ b'I' ∷ b'O' ∷ b'N' ∷ b'S' ∷ []))
    ∷ (7, (b'T' ∷ b'R' ∷ b'A' ∷ b'C' ∷ b'E' ∷ []))
    ∷ (8, (b'C' ∷ b'O' ∷ b'N' ∷ b'N' ∷ b'E' ∷ b'C' ∷ b'T' ∷ []))
    ∷ (9, (b'P' ∷ b'R' ∷ b'O' ∷ b'P' ∷ b'F' ∷ b'I' ∷ b'N' ∷ b'D' ∷ []))
    ∷ (10, (b'P' ∷ b'R' ∷ b'O' ∷ b'P' ∷ b'P' ∷ b'A' ∷ b'T' ∷ b'C' ∷ b'H' ∷ []))
    ∷ (11, (b'M' ∷ b'K' ∷ b'C' ∷ b'O' ∷ b'L' ∷ []))
    ∷ (12, (b'C' ∷ b'O' ∷ b'P' ∷ b'Y' ∷ []))
    ∷ (13, (b'M' ∷ b'O' ∷ b'V' ∷ b'E' ∷ []))
    ∷ (14, (b'L' ∷ b'O' ∷ b'C' ∷ b'K' ∷ []))
    ∷ (15, (b'U' ∷ b'N' ∷ b'L' ∷ b'O' ∷ b'C' ∷ b'K' ∷ []))
    ∷ (16, (b'M' ∷ b'K' ∷ b'A' ∷ b'C' ∷ b'T' ∷ b'I' ∷ b'V' ∷ b'I' ∷ b'T' ∷ b'Y' ∷ []))
    ∷ (17, (b'R' ∷ b'E' ∷ b'P' ∷ b'O' ∷ b'R' ∷ b'T' ∷ []))
    ∷ (18, (b'C' ∷ b'H' ∷ b'E' ∷ b'C' ∷ b'K' ∷ b'O' ∷ b'U' ∷ b'T' ∷ []))
    ∷ (19, (b'M' ∷ b'E' ∷ b'R' ∷ b'G' ∷ b'E' ∷ []))
    ∷ []

-- `kHTTPVersionTable`, up to its last entry
unfoldable pub version_table : List (ℕ × List ℕ)
version_table =
    (0, [])
    ∷ (10, (b'H' ∷ b'T' ∷ b'T' ∷ b'P' ∷ b'/' ∷ b'1' ∷ b'.' ∷ b'0' ∷ []))
    ∷ (11, (b'H' ∷ b'T' ∷ b'T' ∷ b'P' ∷ b'/' ∷ b'1' ∷ b'.' ∷ b'1' ∷ []))
    ∷ (20, (b'H' ∷ b'T' ∷ b'T' ∷ b'P' ∷ b'/' ∷ b'2' ∷ b'.' ∷ b'0' ∷ []))
    ∷ []
