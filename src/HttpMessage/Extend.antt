-- ===== src/HttpMessage/Extend.antt =====
-- A message after a value has been joined to the ones of a field.
use latypus.Common.{
  ℕ, ◌+◌, ◌≤◌, ◌≡◌, ap, sym, ◌∙◌, some, List, [], ◌∷◌, ◌++◌, arith, length, drop, length-append,
  length-take, length-drop,
}
use latypus.HttpMessage.{
  HeaderString, HeaderList, Message, text, find_field, replace_value, replace_entry, joined,
}
use latypus.HttpMessage.Fields.{Texts, headers, put_text, Before, IsMessage, appended, here, Found}
use latypus.HttpMessage.Entries.{
  replace_entry-value, texts-replace_value, Within-replace_value, find_field_kept,
}
use latypus.HttpMessage.Append.{
  fits_zero, appended-IsMessage, appended-headers, appended-here, appended-text,
}

pub length-text :
    (m : Message) (s : HeaderString)
    → IsMessage m
    → Before m.buffer_offset s
    → length (text m.buffer s) ≡ s.count
length-text m s v b =
    omega (
      arith,
      v.offset_in,
      length-take s.count (drop s.start m.buffer),
      length-drop s.start m.buffer,
    )

-- The values of a field are joined to one behind what is there.
module _ {m : Message} (v : IsMessage m) (name value : List ℕ) (key orig : HeaderString)
    (found : find_field m.buffer m.header_list name ≡ some (key, orig))
    (f : Found m.buffer m.buffer_offset m.header_list name (some (key, orig)))
    (fits : m.buffer_offset + (orig.count + length value + 3) ≤ length m.buffer) where
  abbrev pub list_text : List ℕ
  list_text = joined (text m.buffer orig) value

  pub fits_list : m.buffer_offset + (length list_text + 1) ≤ length m.buffer
  fits_list =
      omega
        (arith, length-text m orig v f.2, length-append (text m.buffer orig) (b',' ∷ b' ' ∷ value))

  abbrev pub listed : Message
  listed = appended m list_text

  pub listed-IsMessage : IsMessage listed
  listed-IsMessage = appended-IsMessage v list_text fits_list

  abbrev pub new_value : HeaderString
  new_value = here m list_text

  pub key_text : text listed.buffer key ≡ name
  key_text = appended-text v list_text fits_list key f.1 ∙ f.0

  pub found_listed : find_field listed.buffer m.header_list name ≡ some (key, orig)
  found_listed =
      find_field_kept m.buffer m.buffer_offset (list_text ++ (0 ∷ []))
        (fits_zero v list_text fits_list) m.header_list name v.within
      ∙ found

  pub new_text : text listed.buffer new_value ≡ joined (text listed.buffer orig) value
  new_text =
      appended-here v list_text fits_list
      ∙ ap (λ (t : List ℕ). joined t value) (sym (appended-text v list_text fits_list orig f.2))

  pub replaced :
      replace_entry listed.buffer m.header_list (key, orig) new_value
      ≡ some (replace_value listed.buffer m.header_list name new_value)
  replaced =
      replace_entry-value listed.buffer m.header_list name key orig new_value found_listed key_text

  abbrev pub extended_message : Message
  extended_message = record listed {
    header_list = replace_value listed.buffer m.header_list name new_value;
    header_map = replace_value listed.buffer m.header_map name new_value;
  }

  pub extended-IsMessage : IsMessage extended_message
  extended-IsMessage = record {
    small = listed-IsMessage.small;
    offset_in = listed-IsMessage.offset_in;
    within =
        Within-replace_value listed.buffer listed.buffer_offset m.header_list name new_value
          listed-IsMessage.within (omega arith);
    same_fields =
        ap (λ (l : HeaderList). replace_value listed.buffer l name new_value) v.same_fields;
  }

  pub extended-headers : headers extended_message ≡ put_text (headers m) name value
  extended-headers =
      texts-replace_value listed.buffer m.header_list name value key orig new_value found_listed
        new_text
      ∙ ap (λ (t : Texts). put_text t name value) (appended-headers v list_text fits_list)
