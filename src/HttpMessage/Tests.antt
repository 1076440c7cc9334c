-- ===== src/HttpMessage/Tests.antt =====
-- A message with one header, set twice.
use latypus.Common.{ℕ, refl, [], ◌∷◌, false, replicate, List, arith}
use latypus.HttpMessage.{Message, set_header_field}
use latypus.HttpMessage.Fields.{IsMessage}
use latypus.HttpMessage.Update.{Updated, set_header_field-Updated}
use latypus.HttpMessage.Lookup.{Shown, set_header_field-Shown}

abbrev host : List ℕ
host = b'H' ∷ []

abbrev blank : Message
blank = record {
  buffer = replicate 16 0;
  buffer_offset = 0;
  max_headers = 2;
  header_list = [];
  header_map = [];
  overflow = false;
}

-- `H: a` is there.
abbrev with_host : Message
with_host = record blank {
  buffer = b'H' ∷ 0 ∷ b'a' ∷ 0 ∷ replicate 12 0;
  buffer_offset = 4;
  header_list = (record { start = 0; count = 1 }, record { start = 2; count = 1 }) ∷ [];
  header_map = (record { start = 0; count = 1 }, record { start = 2; count = 1 }) ∷ [];
}

with_host-IsMessage : IsMessage with_host
with_host-IsMessage = record {
  small = omega arith;
  offset_in = omega arith;
  within = (omega arith, omega arith, tt);
  same_fields = refl;
}

set_header_field-Updated_example :
    Updated with_host host (b'b' ∷ []) (set_header_field with_host host (b'b' ∷ []))
set_header_field-Updated_example =
    set_header_field-Updated with_host host (b'b' ∷ []) with_host-IsMessage

set_header_field-Shown_example :
    Shown with_host host (b'b' ∷ []) host (set_header_field with_host host (b'b' ∷ []))
set_header_field-Shown_example =
    set_header_field-Shown with_host host (b'b' ∷ []) host with_host-IsMessage
