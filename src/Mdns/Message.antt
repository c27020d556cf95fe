-- ===== src/Mdns/Message.antt =====
-- mdns.py, `_parse_message` with `_parse_rdata` and `_parse_txt`: the records of a response.
pub mod Outcome
use codexnet.OrderedDict.{put, OrderedDict, lookup}
use codexnet.Prelude.{
  drop, take, any, none, slice, suc, ◌||◌, if◌then◌else◌, length, ltb, nat_beq, not, ◌++◌, List, [],
  some, ◌∷◌, Bool, Option, ℕ, zero, ◌+◌, ◌-◌, ◌%◌, true, false,
}
use codexnet.Mdns.Name.{
  bad_txt_key, trailing_data, truncated_record_data, bad_service_data, section_count,
  truncated_header, truncated_question, truncated_record_header, truncated_txt_item,
  bad_address_length, bad_pointer_data, out_of_fuel, oversized_message, oversized_txt,
  truncated_service, undecodable_txt_item, MdnsError, read_name,
}
use codexnet.Prelude.Text.{ipv4_text, be_value, Text}
use codexnet.Passive.Observation.{is_empty}
use codexnet.Prelude.Keys.{list_eq, nat_eq}
use codexnet.Prelude.Result.{ok, err, ◌>>◌, ◌>>=◌, raise_if, Result}
use codexnet.Passive.Types.{Unicode}

-- The bounds of a parser.
pub record Bounds : Type 0 where
  pub max_message_bytes : ℕ
  pub max_questions : ℕ
  pub max_records : ℕ
  pub max_txt_bytes : ℕ
  pub max_cache_entries : ℕ
  pub max_ttl_seconds : ℕ

-- A value of the TXT mapping: a key that comes again makes a list.
pub data TxtValue : Type 0 where
  one : Text → TxtValue
  several : List Text → TxtValue

abbrev pub TxtMap : Type 0
TxtMap = OrderedDict Text TxtValue

-- The value of a record; its constructor tells the record type 1, 12, 33 or 16.
pub data RecordValue : Type 0 where
  ipv4 : Text → RecordValue
  pointer : Text → RecordValue
  service : ℕ → ℕ → ℕ → Text → RecordValue
  txt : TxtMap → RecordValue

-- _Record
pub record Record : Type 0 where
  pub name : Text
  pub ttl : ℕ
  pub value : RecordValue

abbrev with_equals : Bool → ℕ → Text → Text × Text → Text × Text
with_equals true c cs (key, value) = ([], cs)
with_equals false c cs (key, value) = (c ∷ key, value)

-- item.partition("="): the key, and the value behind the separator or the empty text
unfoldable pub partition : Text → Text × Text
partition [] = ([], [])
partition (c ∷ cs) = with_equals (nat_beq c b'=') c cs (partition cs)

abbrev add_value : Option TxtValue → Text → TxtValue
add_value none redacted = one redacted
add_value (some (one existing)) redacted = several (existing ∷ redacted ∷ [])
add_value (some (several existing)) redacted = several (existing ++ redacted ∷ [])

-- The environment of the parser: Unicode, and the redactor's answer for a key and its value.
module _ (unicode : Unicode) (redact : Text → Text → Text) where
  -- The body of the loop behind the decoding of an item.
  unfoldable pub add_item : Option Text → TxtMap → Result MdnsError TxtMap
  add_item none values = err undecodable_txt_item
  add_item (some item) values =
      let (key, value) = partition item in
      if is_empty key || ltb 255 (length key) || any (λ c. ltb c 0x20) key
      then err bad_txt_key
      else ok (put key (add_value (lookup key values) (redact key value)) values)

  -- The `while` loop over `data[offset:]`.
  unfoldable pub txt_loop : ℕ → List ℕ → TxtMap → Result MdnsError TxtMap
  txt_loop fuel [] values = ok values
  txt_loop zero (len ∷ bytes) values = err out_of_fuel
  txt_loop (suc fuel) (len ∷ bytes) values =
      if ltb (length bytes) len
      then err truncated_txt_item
      else elim (add_item (unicode.decode (take len bytes)) values) [
        | err e ↦ err e
        | ok values' ↦ txt_loop fuel (drop len bytes) values'
      ]

  -- Every round takes a byte at least.
  unfoldable pub parse_txt : List ℕ → Result MdnsError TxtMap
  parse_txt bytes = txt_loop (length bytes) bytes []

  unfoldable pub parse_address : List ℕ → ℕ → ℕ → Result MdnsError (Option RecordValue)
  parse_address payload start end = do
    raise_if (not (nat_beq (end - start) 4)) bad_address_length
    ok (some (ipv4 (ipv4_text (slice start end payload))))

  unfoldable pub parse_pointer : List ℕ → ℕ → ℕ → Result MdnsError (Option RecordValue)
  parse_pointer payload start end = do
    (name, consumed) ← read_name unicode payload start
    raise_if (not (nat_beq consumed end)) bad_pointer_data
    ok (some (pointer name))

  unfoldable pub parse_service : List ℕ → ℕ → ℕ → Result MdnsError (Option RecordValue)
  parse_service payload start end = do
    raise_if (ltb (end - start) 7) truncated_service
    (target, consumed) ← read_name unicode payload (start + 6)
    raise_if (not (nat_beq consumed end)) bad_service_data
    ok (
        some (
          service (be_value (slice start (start + 2) payload))
            (be_value (slice (start + 2) (start + 4) payload))
            (be_value (slice (start + 4) (start + 6) payload)) target))

  unfoldable pub parse_txt_data : Bounds → List ℕ → ℕ → ℕ → Result MdnsError (Option RecordValue)
  parse_txt_data bounds payload start end = do
    raise_if (ltb bounds.max_txt_bytes (end - start)) oversized_txt
    values ← parse_txt (slice start end payload)
    ok (some (txt values))

  -- _parse_rdata: other record types have no value
  unfoldable pub parse_rdata : Bounds → List ℕ → ℕ → ℕ → ℕ → Result MdnsError (Option RecordValue)
  parse_rdata bounds payload start end record_type =
      if nat_beq record_type 1
      then parse_address payload start end
      else if nat_beq record_type 12
      then parse_pointer payload start end
      else if nat_beq record_type 33
      then parse_service payload start end
      else if nat_beq record_type 16
      then parse_txt_data bounds payload start end
      else ok none

  -- The questions, whose names and types are skipped: the offset behind them.
  unfoldable pub skip_questions : List ℕ → ℕ → ℕ → Result MdnsError ℕ
  skip_questions payload zero offset = ok offset
  skip_questions payload (suc n) offset = do
    (name, behind) ← read_name unicode payload offset
    raise_if (ltb (length payload) (behind + 4)) truncated_question
    skip_questions payload n (behind + 4)

  abbrev pub with_value : Text → ℕ → Option RecordValue → List Record → List Record
  with_value name ttl none records = records
  with_value name ttl (some value) records =
      record { name = name; ttl = ttl; value = value } ∷ records

  -- Records of another class than IN are skipped behind the test of their extent.
  unfoldable pub record_value :
      Bounds → List ℕ → ℕ → ℕ → ℕ → ℕ → Result MdnsError (Option RecordValue)
  record_value bounds payload start end record_type record_class =
      if nat_beq (record_class % 0x8000) 1
      then parse_rdata bounds payload start end record_type
      else ok none

  -- The resource records: what they hold, and the offset behind them.
  unfoldable pub read_records : Bounds → List ℕ → ℕ → ℕ → Result MdnsError (List Record × ℕ)
  read_records bounds payload zero offset = ok ([], offset)
  read_records bounds payload (suc n) offset = do
    (name, header) ← read_name unicode payload offset
    raise_if (ltb (length payload) (header + 10)) truncated_record_header
    let start = header + 10
    let end = start + be_value (slice (header + 8) (header + 10) payload)
    raise_if (ltb (length payload) end) truncated_record_data
    value ←
        record_value bounds payload start end (be_value (slice header (header + 2) payload))
          (be_value (slice (header + 2) (header + 4) payload))
    (records, behind) ← read_records bounds payload n end
    ok (with_value name (be_value (slice (header + 4) (header + 8) payload)) value records, behind)

  abbrev pub field_at : List ℕ → ℕ → ℕ
  field_at payload offset = be_value (slice offset (offset + 2) payload)

  -- The sections of a response, behind the checks of its size and its flags.
  unfoldable pub read_sections : Bounds → List ℕ → Result MdnsError (List Record)
  read_sections bounds payload = do
    let questions = field_at payload 4
    let record_count = field_at payload 6 + field_at payload 8 + field_at payload 10
    raise_if (ltb bounds.max_questions questions || ltb bounds.max_records record_count)
        section_count
    offset ← skip_questions payload questions 12
    (records, behind) ← read_records bounds payload record_count offset
    raise_if (not (nat_beq behind (length payload))) trailing_data
    ok records

  -- _parse_message: a query, without the flag 0x8000, has no records
  unfoldable pub parse_message : Bounds → List ℕ → Result MdnsError (List Record)
  parse_message bounds payload =
      if ltb bounds.max_message_bytes (length payload)
      then err oversized_message
      else if ltb (length payload) 12
      then err truncated_header
      else if ltb (field_at payload 2) 0x8000
      then ok []
      else read_sections bounds payload
