-- ===== src/Mdns/Name.antt =====
-- mdns.py, `_read_name`: a name with its compression pointers.
pub mod Bounds
use codexnet.Prelude.{
  slice, nat_beq, ◌||◌, length, ltb, any, leb, if◌then◌else◌, suc, ◌*◌, ◌++◌, byte_at, ◌%◌, ◌+◌,
  ◌∷◌, none, some, List, Option, [], ℕ, zero,
}
use codexnet.Prelude.Result.{◌>>◌, ◌>>=◌, raise_if, ok, err, Result}
use codexnet.Prelude.Text.{Text}
use codexnet.Passive.Types.{Unicode}

-- The `PassiveParseError`s of the module, one constructor for each message. `out_of_fuel` is no
-- Python value: the loops raise it when their fuel is used up.
pub data MdnsError : Type 0 where
  unexpected_protocol oversized_message truncated_header section_count : MdnsError
  truncated_question truncated_record_header truncated_record_data trailing_data : MdnsError
  bad_address_length bad_pointer_data truncated_service bad_service_data : MdnsError
  oversized_txt truncated_txt_item undecodable_txt_item bad_txt_key : MdnsError
  truncated_name truncated_pointer looping_pointer bad_label_encoding : MdnsError
  truncated_label long_name undecodable_label bad_label : MdnsError
  out_of_fuel : MdnsError

-- _MAX_POINTER_JUMPS
abbrev pub max_pointer_jumps : ℕ
max_pointer_jumps = 16

-- The local variables of the loop.
pub record NameState : Type 0 where
  pub labels : List Text
  pub cursor : ℕ
  pub consumed : Option ℕ
  pub visited : List ℕ
  pub wire_length : ℕ
  pub jumps : ℕ

-- One round of the loop: it goes on, or breaks with the labels and the end of the name.
pub data Round : Type 0 where
  more : NameState → Round
  broken : List Text → ℕ → Round

abbrev pub or_consumed : Option ℕ → ℕ → ℕ
or_consumed none n = n
or_consumed (some m) n = m

-- A compression pointer, whose first byte is `head`.
unfoldable pub follow_pointer : List ℕ → ℕ → NameState → Result MdnsError Round
follow_pointer message head s =
    let pointer = head % 64 * 256 + byte_at message (s.cursor + 1) in
    if leb (length message) (s.cursor + 1)
    then err truncated_pointer
    else if leb (length message) pointer
        || any (λ p. nat_beq p pointer) s.visited
        || leb max_pointer_jumps s.jumps
    then err looping_pointer
    else ok (
        more (record s {
          visited = pointer ∷ s.visited;
          jumps = s.jumps + 1;
          consumed = some (or_consumed s.consumed (s.cursor + 2));
          cursor = pointer;
        }))

-- A label's text behind its decoding.
abbrev checked_label : Option Text → Result MdnsError Text
checked_label none = err undecodable_label
checked_label (some label) = if any (λ c. ltb c 0x20) label then err bad_label else ok label

-- A label of `len` bytes behind its length byte.
unfoldable pub take_label : Unicode → List ℕ → ℕ → NameState → Result MdnsError Round
take_label unicode message len s = do
  let start = s.cursor + 1
  let wire_length = s.wire_length + (len + 1)
  raise_if (ltb (length message) (start + len)) truncated_label
  raise_if (ltb 255 wire_length) long_name
  label ← checked_label (unicode.decode (slice start (start + len) message))
  ok (
      more (record s {
        labels = s.labels ++ label ∷ [];
        cursor = start + len;
        wire_length = wire_length;
      }))

-- The body of the loop; a byte has its two high bits set from 192 on, and none below 64.
unfoldable pub read_round : Unicode → List ℕ → NameState → Result MdnsError Round
read_round unicode message s =
    let head = byte_at message s.cursor in
    if leb (length message) s.cursor
    then err truncated_name
    else if leb 192 head
    then follow_pointer message head s
    else if leb 64 head
    then err bad_label_encoding
    else if nat_beq head 0
    then ok (broken s.labels (or_consumed s.consumed (s.cursor + 1)))
    else take_label unicode message head s

-- ".".join(labels)
unfoldable pub join_dots : List Text → Text
join_dots [] = []
join_dots (l ∷ []) = l
join_dots (l ∷ m ∷ ls) = l ++ b'.' ∷ join_dots (m ∷ ls)

unfoldable pub read_loop : Unicode → List ℕ → ℕ → NameState → Result MdnsError (List Text × ℕ)
read_loop unicode message zero s = err out_of_fuel
read_loop unicode message (suc fuel) s = elim (read_round unicode message s) [
  | err e ↦ err e
  | ok (broken labels end) ↦ ok (labels, end)
  | ok (more s') ↦ read_loop unicode message fuel s'
]

abbrev pub name_start : ℕ → NameState
name_start offset = record {
  labels = [];
  cursor = offset;
  consumed = none;
  visited = [];
  wire_length = 1;
  jumps = 0;
}

-- 254 bytes of labels and 16 jumps at most, and the round that breaks.
abbrev pub name_fuel : ℕ
name_fuel = 272

-- _read_name: the name and the offset behind it
unfoldable pub read_name : Unicode → List ℕ → ℕ → Result MdnsError (Text × ℕ)
read_name unicode message offset = do
  raise_if (leb (length message) offset) truncated_name
  (labels, end) ← read_loop unicode message name_fuel (name_start offset)
  ok (unicode.casefold (join_dots labels), end)
