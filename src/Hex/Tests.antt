-- ===== src/Hex/Tests.antt =====
-- Three bytes in hexadecimal.
use latypus.Common.{ℕ, ◌≡◌, List, [], ◌∷◌, arith}
use latypus.Hex.{encode, decode}
use latypus.Hex.Roundtrip.{decode-encode}

abbrev bytes : List ℕ
bytes = 0 ∷ 171 ∷ 255 ∷ []

decode-encode_example : decode (encode bytes) 2 ≡ 0 ∷ 171 ∷ []
decode-encode_example = decode-encode bytes 2 (omega arith, (omega arith, (omega arith, tt)))
