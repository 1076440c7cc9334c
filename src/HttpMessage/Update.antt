-- ===== src/HttpMessage/Update.antt =====
-- `set_header_field` on the texts of the headers.
use latypus.Io.Memory.{load-some}
use latypus.Common.{
  ℕ, ◌+◌, ◌-◌, ◌≤◌, ◌≡◌, refl, ap, sym, subst, ◌∙◌, Bool, true, false, not, ◌&&◌, Option, none,
  some, List, arith, ◌==◌, ltb, leb, if◌then◌else◌, if_elim, length,
}
use latypus.HttpMessage.{
  HeaderString, HeaderList, Message, text, bytes_writable, find_field, add_field, joined,
  extend_field, set_header_field,
}
use latypus.HttpMessage.Fields.{
  headers, lookup_text, put_text, IsMessage, appended, room, append_text-appended, Kept, Found,
  find_field-Found,
}
use latypus.HttpMessage.Append.{
  fits_name, fits_value, entry, both_texts, added-IsMessage, appended-Kept, both-Kept,
}
use latypus.HttpMessage.Extend.{
  length-text, fits_list, replaced, extended-IsMessage, extended-headers,
}

-- The bytes that a header takes.
abbrev pub needed : Message → List ℕ → List ℕ → ℕ
needed m name value = elim (lookup_text (headers m) name) [
  | none ↦ length name + length value + 2
  | some old ↦ length old + length value + 3
]

abbrev pub accepts : Message → List ℕ → List ℕ → Bool
accepts m name value =
    not (length m.header_list == m.max_headers)
    && leb (needed m name value) (length m.buffer - m.buffer_offset)

abbrev pub Updated : Message → List ℕ → List ℕ → Option (Message × Bool) → Type 0
Updated m name value none = ⊥
Updated m name value (some (m1, done)) =
    (done ≡ accepts m name value)
    × IsMessage m1
    × (headers m1 ≡ (if done then put_text (headers m) name value else headers m))
    × (m1.overflow ≡ (if done then m.overflow else true))
    × Kept m m1

abbrev failed : Message → Message
failed m = record m { overflow = true }

refused-Updated :
    (m : Message) (name value : List ℕ)
    → IsMessage m
    → accepts m name value ≡ false
    → Updated m name value (some (failed m, false))
refused-Updated m name value v h = (
  sym h,
  record {
    small = v.small;
    offset_in = v.offset_in;
    within = v.within;
    same_fields = v.same_fields;
  },
  refl,
  refl,
  (refl, omega arith, refl),
)

accepts_if :
    (m : Message) (name value : List ℕ) (n : ℕ) (b : Bool)
    → (length m.header_list == m.max_headers) ≡ false
    → needed m name value ≡ n
    → leb n (length m.buffer - m.buffer_offset) ≡ b
    → accepts m name value ≡ b
accepts_if m name value n b p q r = rw (p, q) r

add_field-Updated :
    (m : Message) (name value : List ℕ)
    → IsMessage m
    → (length m.header_list == m.max_headers) ≡ false
    → Found m.buffer m.buffer_offset m.header_list name none
    → Updated m name value (add_field m name value)
unfolding add_field
add_field-Updated m name value v space (missing, added) =
    let r = room m v in
    let o = v.offset_in in
    let count : needed m name value ≡ length name + length value + 2 = rw (missing, needed) refl in
    if_elim (Updated m name value) (ltb (bytes_writable m) (length name + length value + 2))
      (λ h.
        refused-Updated m name value v (
          accepts_if m name value (length name + length value + 2) false space count
            (ground arith)))
      λ h.
        let fits : m.buffer_offset + (length name + length value + 2) ≤ length m.buffer =
          ground arith in
        rw
          (
            append_text-appended m name (fits_name v name value fits),
            append_text-appended (appended m name) value (fits_value v name value fits),
          )
          (
            sym (
                accepts_if m name value (length name + length value + 2) true space count
                  (ground arith)),
            added-IsMessage v name value fits,
            both_texts v name value fits ∙ sym (added value),
            refl,
            both-Kept v name value fits,
          )

extend_field-Updated :
    (m : Message) (name value : List ℕ) (key orig : HeaderString)
    → IsMessage m
    → (length m.header_list == m.max_headers) ≡ false
    → find_field m.buffer m.header_list name ≡ some (key, orig)
    → Found m.buffer m.buffer_offset m.header_list name (some (key, orig))
    → Updated m name value (extend_field m name (key, orig) value)
unfolding extend_field
extend_field-Updated m name value key orig v space found f =
    let r = room m v in
    let o = v.offset_in in
    let q : length (text m.buffer orig) ≡ orig.count = length-text m orig v f.2 in
    let count : needed m name value ≡ orig.count + length value + 3 =
      rw (f.3, needed) (omega (arith, q)) in
    if_elim (Updated m name value) (ltb (bytes_writable m) (orig.count + length value + 2 + 1))
      (λ h.
        refused-Updated m name value v (
          accepts_if m name value (orig.count + length value + 3) false space count (ground arith)))
      λ h.
        let fits : m.buffer_offset + (orig.count + length value + 3) ≤ length m.buffer =
          ground arith in
        let inside : orig.start + orig.count ≤ m.buffer_offset = f.2 in
        rw
          (
            load-some m.buffer orig.start orig.count (omega arith),
            append_text-appended m (joined (text m.buffer orig) value)
                (fits_list v name value key orig found f fits),
            replaced v name value key orig found f fits,
          )
          (
            sym (
                accepts_if m name value (orig.count + length value + 3) true space count
                  (ground arith)),
            extended-IsMessage v name value key orig found f fits,
            extended-headers v name value key orig found f fits,
            refl,
            appended-Kept v (joined (text m.buffer orig) value)
                (fits_list v name value key orig found f fits),
          )

-- `set_header_field` on the texts of the headers, for every message whose strings lie before the
-- offset: it reports success exactly where the header count differs from the maximum and the bytes
-- that the header takes fit behind the offset; then the header is added at the end, or its value
-- joined to the ones of the header that is there, and no other header changes. Elsewhere it changes
-- no header and records the overflow. It never writes past the buffer, and what is before the offset
-- stays as it is.
pub set_header_field-Updated :
    (m : Message) (name value : List ℕ)
    → IsMessage m
    → Updated m name value (set_header_field m name value)
unfolding set_header_field
set_header_field-Updated m name value v =
    if_elim (Updated m name value) (length m.header_map == m.max_headers)
      (λ h. refused-Updated m name value v (rw (sym space ∙ h) refl))
      λ h. by_entry (sym space ∙ h) (find_field m.buffer m.header_map name) refl
  where
    space : (length m.header_map == m.max_headers) ≡ (length m.header_list == m.max_headers)
    space = ap (λ (l : HeaderList). length l == m.max_headers) v.same_fields

    in_list : find_field m.buffer m.header_map name ≡ find_field m.buffer m.header_list name
    in_list = ap (λ (l : HeaderList). find_field m.buffer l name) v.same_fields

    by_entry :
        (length m.header_list == m.max_headers) ≡ false
        → (o : Option (HeaderString × HeaderString)) → find_field m.buffer m.header_map name ≡ o
        → Updated m name value (elim o [
          | none ↦ add_field m name value
          | some entry ↦ extend_field m name entry value
        ])
    by_entry h none e = add_field-Updated m name value v h (
        subst (Found m.buffer m.buffer_offset m.header_list name) (sym in_list ∙ e)
          (find_field-Found m.buffer m.buffer_offset m.header_list name v.within))
    by_entry h (some (key, orig)) e =
        extend_field-Updated m name value key orig v h (sym in_list ∙ e) (
          subst (Found m.buffer m.buffer_offset m.header_list name) (sym in_list ∙ e)
            (find_field-Found m.buffer m.buffer_offset m.header_list name v.within))
