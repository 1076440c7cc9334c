-- ===== src/HttpMessage/Append.antt =====
-- A message after one text, and after a name and a value, have been appended behind the offset.
use latypus.Io.Memory.{length-spliced}
use latypus.Common.{ℕ, ◌+◌, ◌≤◌, ◌≡◌, ap, ap₂, ◌∙◌, List, [], ◌∷◌, ◌++◌, arith, length, take, drop}
use latypus.HttpMessage.{HeaderString, HeaderList, Message, text}
use latypus.HttpMessage.Views.{text_kept, text_written}
use latypus.HttpMessage.Fields.{
  Texts, texts, headers, Before, IsMessage, Within-le, Within-append, texts-append, texts_kept,
  appended, here, length-zero, Kept, Kept-trans,
}
use latypus.Io.Memory.{length_left}
use latypus.HttpMessage.Views.{take-append_left, take-take}

module _ {m : Message} (v : IsMessage m) (str : List ℕ)
    (fits : m.buffer_offset + (length str + 1) ≤ length m.buffer) where
  pub fits_zero : m.buffer_offset + length (str ++ (0 ∷ [])) ≤ length m.buffer
  fits_zero = omega (arith, length-zero str)

  pub appended-size : length (appended m str).buffer ≡ length m.buffer
  appended-size = length-spliced m.buffer m.buffer_offset (str ++ (0 ∷ [])) fits_zero

  pub appended-IsMessage : IsMessage (appended m str)
  appended-IsMessage = record {
    small = omega (arith, appended-size, v.small);
    offset_in = omega (arith, appended-size, fits);
    within =
        Within-le m.buffer_offset (m.buffer_offset + (length str + 1)) m.header_list (omega arith)
          v.within;
    same_fields = v.same_fields;
  }

  pub appended-headers : headers (appended m str) ≡ headers m
  appended-headers =
      texts_kept m.buffer m.buffer_offset (str ++ (0 ∷ [])) fits_zero m.header_list v.within

  pub appended-here : text (appended m str).buffer (here m str) ≡ str
  appended-here = text_written m.buffer m.buffer_offset str fits

  pub appended-text :
      (s : HeaderString)
      → Before m.buffer_offset s
      → text (appended m str).buffer s ≡ text m.buffer s
  appended-text s h = text_kept m.buffer m.buffer_offset (str ++ (0 ∷ [])) fits_zero s h

  pub appended-Kept : Kept m (appended m str)
  appended-Kept =
      let bytes : List ℕ = str ++ (0 ∷ []) in
      (
        take-append_left m.buffer_offset (take m.buffer_offset m.buffer)
              (bytes ++ drop (m.buffer_offset + length bytes) m.buffer)
              (omega (arith, length_left m.buffer m.buffer_offset bytes fits_zero))
            ∙ take-take m.buffer_offset m.buffer_offset m.buffer (omega arith),
        omega arith,
        appended-size,
      )

-- A name and a value are appended one after the other.
module _ {m : Message} (v : IsMessage m) (name value : List ℕ)
    (fits : m.buffer_offset + (length name + length value + 2) ≤ length m.buffer) where
  pub fits_name : m.buffer_offset + (length name + 1) ≤ length m.buffer
  fits_name = omega arith

  abbrev pub named : Message
  named = appended m name

  pub named-IsMessage : IsMessage named
  named-IsMessage = appended-IsMessage v name fits_name

  pub fits_value : named.buffer_offset + (length value + 1) ≤ length named.buffer
  fits_value = let e = appended-size v name fits_name in omega arith

  abbrev pub both : Message
  both = appended named value

  pub both-IsMessage : IsMessage both
  both-IsMessage = appended-IsMessage named-IsMessage value fits_value

  abbrev pub entry : HeaderString × HeaderString
  entry = (here m name, here named value)

  pub both-headers : headers both ≡ headers m
  both-headers =
      appended-headers named-IsMessage value fits_value ∙ appended-headers v name fits_name

  pub first_text : text both.buffer entry.0 ≡ name
  first_text =
      appended-text named-IsMessage value fits_value entry.0 (omega arith)
      ∙ appended-here v name fits_name

  pub second_text : text both.buffer entry.1 ≡ value
  second_text = appended-here named-IsMessage value fits_value

  pub both_texts :
      texts both.buffer (m.header_list ++ (entry ∷ [])) ≡ headers m ++ ((name, value) ∷ [])
  both_texts =
      texts-append both.buffer m.header_list (entry ∷ [])
      ∙ ap₂ (λ (l : Texts) (e : List ℕ × List ℕ). l ++ (e ∷ [])) both-headers
          (ap₂ (λ (x y : List ℕ). (x, y)) first_text second_text)

  abbrev pub added_message : Message
  added_message = record both {
    header_list = m.header_list ++ (entry ∷ []);
    header_map = m.header_map ++ (entry ∷ []);
  }

  pub added-IsMessage : IsMessage added_message
  added-IsMessage = record {
    small = both-IsMessage.small;
    offset_in = both-IsMessage.offset_in;
    within =
        Within-append both.buffer_offset m.header_list entry.0 entry.1 both-IsMessage.within
          (omega arith) (omega arith);
    same_fields = ap (λ (l : HeaderList). l ++ (entry ∷ [])) v.same_fields;
  }

  pub both-Kept : Kept m both
  both-Kept =
      Kept-trans m named both (appended-Kept v name fits_name)
        (appended-Kept named-IsMessage value fits_value)
