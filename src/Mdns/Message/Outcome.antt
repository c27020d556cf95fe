-- ===== src/Mdns/Message/Outcome.antt =====
-- mdns.py, `_parse_message`: every loop ends, and the number of records is within its bound.
use codexnet.Mdns.Message.{
  with_value, RecordValue, field_at, ok, Record, be_value, read_sections, parse_message,
  read_records, record_value, drop, slice, take, Text, Unicode, Bounds, TxtMap, add_item, txt_loop,
  parse_txt, parse_address, parse_pointer, parse_service, parse_txt_data, parse_rdata,
  skip_questions,
}
use codexnet.Prelude.Result.{ok, Result-cases, err}
use codexnet.Prelude.{
  ◌≡◌, drop, length-drop, slice, take, ℕ, zero, suc, ◌+◌, ◌≤◌, ◌≢◌, [], ◌∷◌, List, Option, arith,
  length, inl, inr,
}
use codexnet.Prelude.Text.{be_value, Text}
use codexnet.Prelude.Keys.{list_eq, nat_eq, option_eq}
use codexnet.Passive.Types.{Unicode}
use codexnet.Mdns.Name.{out_of_fuel, read_name}
use codexnet.Mdns.Name.Bounds.{read_name-ne-out_of_fuel}

module _ (unicode : Unicode) (redact : Text → Text → Text) where
  add_item-ne-out_of_fuel :
      (item : Option Text) (values : TxtMap) → add_item unicode redact item values ≢ err out_of_fuel
  unfolding add_item
  add_item-ne-out_of_fuel item values h = ground arith

  txt_loop-ne-out_of_fuel :
      (fuel : ℕ) (bytes : List ℕ) (values : TxtMap)
      → length bytes ≤ fuel
      → txt_loop unicode redact fuel bytes values ≢ err out_of_fuel
  unfolding txt_loop
  txt_loop-ne-out_of_fuel fuel [] values f h = cc
  txt_loop-ne-out_of_fuel zero (len ∷ bytes) values f h = omega arith
  txt_loop-ne-out_of_fuel (suc fuel) (len ∷ bytes) values f h =
      elim (Result-cases (add_item unicode redact (unicode.decode (take len bytes)) values)) [
        | inr (e, failed) ↦
            ground (arith, add_item-ne-out_of_fuel (unicode.decode (take len bytes)) values)
        | inl (values', added) ↦
            ground
              (arith, length-drop len bytes, txt_loop-ne-out_of_fuel fuel (drop len bytes) values')
      ]

  parse_rdata-ne-out_of_fuel :
      (bounds : Bounds) (payload : List ℕ) (start end kind : ℕ)
      → parse_rdata unicode redact bounds payload start end kind ≢ err out_of_fuel
  unfolding parse_rdata parse_address parse_pointer parse_service parse_txt_data parse_txt
  parse_rdata-ne-out_of_fuel bounds payload start end kind h = ground (
    arith,
    read_name-ne-out_of_fuel unicode payload start,
    read_name-ne-out_of_fuel unicode payload (start + 6),
    txt_loop-ne-out_of_fuel (length (slice start end payload)) (slice start end payload) [],
  )

  skip_questions-ne-out_of_fuel :
      (payload : List ℕ) (n offset : ℕ)
      → skip_questions unicode redact payload n offset ≢ err out_of_fuel
  unfolding skip_questions
  skip_questions-ne-out_of_fuel payload zero offset h = cc
  skip_questions-ne-out_of_fuel payload (suc n) offset h =
      elim (Result-cases (read_name unicode payload offset)) [
        | inr (e, failed) ↦ ground (arith, read_name-ne-out_of_fuel unicode payload offset)
        | inl ((name, behind), found) ↦
            ground (arith, skip_questions-ne-out_of_fuel payload n (behind + 4))
      ]

  record_value-ne-out_of_fuel :
      (bounds : Bounds) (payload : List ℕ) (start end kind class : ℕ)
      → record_value unicode redact bounds payload start end kind class ≢ err out_of_fuel
  unfolding record_value
  record_value-ne-out_of_fuel bounds payload start end kind class h =
      ground (arith, parse_rdata-ne-out_of_fuel bounds payload start end kind)

  read_records-ne-out_of_fuel :
      (bounds : Bounds) (payload : List ℕ) (n offset : ℕ)
      → read_records unicode redact bounds payload n offset ≢ err out_of_fuel
  unfolding read_records
  read_records-ne-out_of_fuel bounds payload zero offset h = cc
  read_records-ne-out_of_fuel bounds payload (suc n) offset h =
      elim (Result-cases (read_name unicode payload offset)) [
        | inr (e, failed) ↦ ground (arith, read_name-ne-out_of_fuel unicode payload offset)
        | inl ((name, header), found) ↦
            let start = header + 10 in
            let end = start + be_value (slice (header + 8) (header + 10) payload) in
            ground (
              arith,
              record_value-ne-out_of_fuel bounds payload start end
                  (be_value (slice header (header + 2) payload))
                  (be_value (slice (header + 2) (header + 4) payload)),
              read_records-ne-out_of_fuel bounds payload n end,
            )
      ]

  abbrev data_end : List ℕ → ℕ → ℕ
  data_end payload header = header + 10 + be_value (slice (header + 8) (header + 10) payload)

  -- A round of the loop over the records that goes through.
  record Inverted (bounds : Bounds) (payload : List ℕ) (n offset : ℕ) (records : List Record)
      (behind : ℕ) : Type 0 where
    name : Text
    header : ℕ
    named : read_name unicode payload offset ≡ ok (name, header)
    fits : data_end payload header ≤ length payload
    value : Option RecordValue
    rest : List Record
    following :
        read_records unicode redact bounds payload n (data_end payload header) ≡ ok (rest, behind)
    gathered :
        records
        ≡ with_value unicode redact name
            (be_value (slice (header + 4) (header + 8) payload))
            value
            rest

  read_records_inv :
      (bounds : Bounds) (payload : List ℕ) (n offset : ℕ) (records : List Record) (behind : ℕ)
      → read_records unicode redact bounds payload (suc n) offset ≡ ok (records, behind)
      → Inverted bounds payload n offset records behind
  unfolding read_records
  read_records_inv bounds payload n offset records behind h =
      elim (Result-cases (read_name unicode payload offset)) [
        | inr (e, failed) ↦ absurd (ground arith)
        | inl ((name, header), named) ↦
            let end = data_end payload header in
            let valued =
              record_value unicode redact bounds payload (header + 10) end
                (be_value (slice header (header + 2) payload))
                (be_value (slice (header + 2) (header + 4) payload)) in
            elim (Result-cases valued) [
              | inr (e, failed) ↦ absurd (ground arith)
              | inl (value, given) ↦
                  elim (Result-cases (read_records unicode redact bounds payload n end)) [
                    | inr (e, failed) ↦ absurd (ground arith)
                    | inl ((rest, last), following) ↦ record {
                      name = name;
                      header = header;
                      named = named;
                      fits = ground arith;
                      value = value;
                      rest = rest;
                      following = ground arith;
                      gathered = ground arith;
                    }
                  ]
            ]
      ]

  read_records-le :
      (bounds : Bounds) (payload : List ℕ) (n offset : ℕ) (records : List Record) (behind : ℕ)
      → read_records unicode redact bounds payload n offset ≡ ok (records, behind)
      → length records ≤ n
  unfolding read_records
  read_records-le bounds payload zero offset records behind h = ground arith
  read_records-le bounds payload (suc n) offset records behind h =
      let i = read_records_inv bounds payload n offset records behind h in
      let fewer =
        read_records-le bounds payload n (data_end payload i.header) i.rest behind i.following in
      ground (arith, fewer, i.gathered)

  read_sections-ne-out_of_fuel :
      (bounds : Bounds) (payload : List ℕ)
      → read_sections unicode redact bounds payload ≢ err out_of_fuel
  unfolding read_sections
  read_sections-ne-out_of_fuel bounds payload h =
      let questions = field_at unicode redact payload 4 in
      elim (Result-cases (skip_questions unicode redact payload questions 12)) [
        | inr (e, failed) ↦ ground (arith, skip_questions-ne-out_of_fuel payload questions 12)
        | inl (offset, skipped) ↦ ground (
          arith,
          read_records-ne-out_of_fuel bounds payload
              (field_at unicode redact payload 6
                + field_at unicode redact payload 8
                + field_at unicode redact payload 10)
              offset,
        )
      ]

  -- A message of any bytes is read or refused: none of the loops over names, questions, records and
  -- TXT items goes on forever.
  pub parse_message-ne-out_of_fuel :
      (bounds : Bounds) (payload : List ℕ)
      → parse_message unicode redact bounds payload ≢ err out_of_fuel
  unfolding parse_message
  parse_message-ne-out_of_fuel bounds payload h =
      ground (arith, read_sections-ne-out_of_fuel bounds payload)

  read_sections-le :
      (bounds : Bounds) (payload : List ℕ) (records : List Record)
      → read_sections unicode redact bounds payload ≡ ok records
      → length records ≤ bounds.max_records
  unfolding read_sections
  read_sections-le bounds payload records h =
      let questions = field_at unicode redact payload 4 in
      let record_count =
        field_at unicode redact payload 6
        + field_at unicode redact payload 8
        + field_at unicode redact payload 10 in
      elim (Result-cases (skip_questions unicode redact payload questions 12)) [
        | inr (e, failed) ↦ absurd (ground arith)
        | inl (offset, skipped) ↦
            elim (Result-cases (read_records unicode redact bounds payload record_count offset)) [
              | inr (e, failed) ↦ absurd (ground arith)
              | inl ((rs, behind), found) ↦
                  ground (arith, read_records-le bounds payload record_count offset rs behind found)
            ]
      ]

  -- An accepted message is within its size bound, and has no more records than its bound.
  pub parse_message-le :
      (bounds : Bounds) (payload : List ℕ) (records : List Record)
      → parse_message unicode redact bounds payload ≡ ok records
      → (length payload ≤ bounds.max_message_bytes) × (length records ≤ bounds.max_records)
  unfolding parse_message
  parse_message-le bounds payload records h =
      (ground arith, ground (arith, read_sections-le bounds payload records))
