-- ===== src/ThreadMask/Tests.antt =====
-- Two masks of the server.
use latypus.Common.{ℕ, ◌≡◌, refl, some, none, List, [], ◌∷◌, arith}
use latypus.HttpMessage.{same_string}
use latypus.Config.Directives.{http_server_text}
use latypus.ThreadMask.{
  Mask, protocol_mask, find_mask, thread_mask_to_string, string_to_thread_mask, pieces, or_masks,
  piece_mask, split_slash, thread_mask_to_protocols, add_protocols,
}
use latypus.ThreadMask.Roundtrip.{IsTable, string_to_thread_mask-thread_mask_to_string}

abbrev router_text : List ℕ
router_text = b'r' ∷ b'o' ∷ b'u' ∷ b't' ∷ b'e' ∷ b'r' ∷ []

abbrev worker_text : List ℕ
worker_text = b'w' ∷ b'o' ∷ b'r' ∷ b'k' ∷ b'e' ∷ b'r' ∷ []

abbrev two_masks : List Mask
two_masks =
    protocol_mask (protocol_mask [] http_server_text router_text) http_server_text worker_text

abbrev protocols : List (List ℕ)
protocols = http_server_text ∷ []

two_masks-IsTable : IsTable protocols two_masks
unfolding protocol_mask find_mask same_string
two_masks-IsTable = ((refl, (refl, tt)), ((refl, refl, refl, refl), ((refl, refl, refl, refl), tt)))

string_to_thread_mask-thread_mask_to_string_example :
    string_to_thread_mask protocols two_masks (thread_mask_to_string two_masks 3) ≡ some 3
unfolding protocol_mask
string_to_thread_mask-thread_mask_to_string_example =
    string_to_thread_mask-thread_mask_to_string protocols two_masks 3 two_masks-IsTable
      (omega arith) (omega arith)

-- A thread with both serves one protocol.
one_protocol : thread_mask_to_protocols two_masks 3 ≡ protocols
unfolding protocol_mask thread_mask_to_protocols add_protocols same_string
one_protocol = refl

-- No mask is written as the empty text, which is not read.
no_mask : string_to_thread_mask protocols two_masks (thread_mask_to_string two_masks 0) ≡ none
unfolding protocol_mask string_to_thread_mask thread_mask_to_string pieces or_masks piece_mask
    split_slash
no_mask = refl
