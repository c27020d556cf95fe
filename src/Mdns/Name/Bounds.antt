-- ===== src/Mdns/Name/Bounds.antt =====
-- mdns.py, `_read_name`: the loop comes to an end, and the end of the name lies in the message.
use codexnet.Prelude.{
  sym, ◌⊎◌, byte_at, ◌≢◌, zero, inr, inl, Option-cases, arith, some, none, ◌<◌, length, ◌+◌, ◌≡◌,
  List, ◌-◌, ◌≤◌, ℕ,
}
use mathlib.Core.Path.{subst}
use codexnet.Mdns.Name.{
  err, byte_at, or_consumed, suc, Text, some, none, ok, length, List, Unicode, ℕ, out_of_fuel,
  NameState, Round, more, broken, follow_pointer, take_label, read_round, read_loop, read_name,
  name_start, name_fuel, max_pointer_jumps,
}
use codexnet.Prelude.Result.{err, Result-cases, ok}
use codexnet.Prelude.Text.{Text}
use codexnet.Passive.Types.{Unicode}

-- The rounds that are left: bytes of labels and jumps.
abbrev rounds_left : NameState → ℕ
rounds_left s = (256 - s.wire_length) + (17 - s.jumps)

-- What the loop keeps of a name at `offset` in a message of `n` bytes.
record InBounds (offset n : ℕ) (s : NameState) : Type 0 where
  wire : s.wire_length ≤ 255
  few : s.jumps ≤ max_pointer_jumps
  after : s.consumed ≡ none → offset ≤ s.cursor
  ends : (e : ℕ) → s.consumed ≡ some e → (offset < e) × (e ≤ n)

module _ (unicode : Unicode) (message : List ℕ) (offset : ℕ) where
  abbrev Good : NameState → Round → Type 0
  Good s (more s') = InBounds offset (length message) s' × (rounds_left s' < rounds_left s)
  Good s (broken labels end) = (offset < end) × (end ≤ length message)

  follow_pointer-Good :
      (head : ℕ) (s : NameState) (r : Round)
      → InBounds offset (length message) s
      → follow_pointer message head s ≡ ok r
      → Good s r
  unfolding follow_pointer
  follow_pointer-Good head s (broken labels end) v h = absurd (ground arith)
  follow_pointer-Good head s (more s') v h = (
    record {
      wire = ground arith;
      few = ground arith;
      after = λ no. ground arith;
      ends = λ e is. elim (Option-cases s.consumed) [
        | inl unset ↦ ground (arith, v.after unset)
        | inr (f, set) ↦ ground (arith, v.ends f set)
      ];
    },
    ground arith,
  )

  take_label-Good :
      (len : ℕ) (s : NameState) (r : Round)
      → InBounds offset (length message) s
      → take_label unicode message len s ≡ ok r
      → Good s r
  unfolding take_label
  take_label-Good len s (broken labels end) v h = absurd (ground arith)
  take_label-Good len s (more s') v h = (
    record {
      wire = ground arith;
      few = ground arith;
      after = λ no. ground (arith, v.after);
      ends = λ e is. v.ends e (ground arith);
    },
    ground arith,
  )

  read_round_inv :
      (s : NameState) (r : Round)
      → read_round unicode message s ≡ ok r
      → (s.cursor < length message)
        × ((follow_pointer message (byte_at message s.cursor) s ≡ ok r)
            ⊎ (take_label unicode message (byte_at message s.cursor) s ≡ ok r)
            ⊎ (r ≡ broken s.labels (or_consumed s.consumed (s.cursor + 1))))
  unfolding read_round
  read_round_inv s r h = ground arith

  broken-Good :
      (s : NameState)
      → InBounds offset (length message) s
      → s.cursor < length message
      → Good s (broken s.labels (or_consumed s.consumed (s.cursor + 1)))
  broken-Good s v lt = elim (Option-cases s.consumed) [
    | inl unset ↦ ground (arith, v.after unset)
    | inr (f, set) ↦ ground (arith, v.ends f set)
  ]

  read_round-Good :
      (s : NameState) (r : Round)
      → InBounds offset (length message) s
      → read_round unicode message s ≡ ok r
      → Good s r
  read_round-Good s r v h =
      let (lt, how) = read_round_inv s r h in
      elim how [
        | inl followed ↦ follow_pointer-Good _ s r v followed
        | inr (inl taken) ↦ take_label-Good _ s r v taken
        | inr (inr ended) ↦ subst (λ q. Good s q) (sym ended) (broken-Good s v lt)
      ]

  follow_pointer-ne-out_of_fuel :
      (head : ℕ) (s : NameState) → follow_pointer message head s ≢ err out_of_fuel
  unfolding follow_pointer
  follow_pointer-ne-out_of_fuel head s h = ground arith

  take_label-ne-out_of_fuel :
      (len : ℕ) (s : NameState) → take_label unicode message len s ≢ err out_of_fuel
  unfolding take_label
  take_label-ne-out_of_fuel len s h = ground arith

  read_round-ne-out_of_fuel : (s : NameState) → read_round unicode message s ≢ err out_of_fuel
  unfolding read_round
  read_round-ne-out_of_fuel s h = ground (
    arith,
    follow_pointer-ne-out_of_fuel (byte_at message s.cursor) s,
    take_label-ne-out_of_fuel (byte_at message s.cursor) s,
  )

  read_loop-ne-out_of_fuel :
      (fuel : ℕ) (s : NameState)
      → InBounds offset (length message) s
      → rounds_left s ≤ fuel
      → read_loop unicode message fuel s ≢ err out_of_fuel
  unfolding read_loop
  read_loop-ne-out_of_fuel zero s v f h = omega (arith, v.wire, v.few)
  read_loop-ne-out_of_fuel (suc fuel) s v f h = elim (Result-cases (read_round unicode message s)) [
    | inr (e, failed) ↦ ground (arith, read_round-ne-out_of_fuel s)
    | inl (broken ls last, found) ↦ ground arith
    | inl (more s', found) ↦
        let (v', fewer) = read_round-Good s (more s') v found in
        read_loop-ne-out_of_fuel fuel s' v' (omega (arith, f, fewer)) (ground arith)
  ]

  read_loop-InBounds :
      (fuel : ℕ) (s : NameState) (labels : List Text) (end : ℕ)
      → InBounds offset (length message) s
      → read_loop unicode message fuel s ≡ ok (labels, end)
      → (offset < end) × (end ≤ length message)
  unfolding read_loop
  read_loop-InBounds zero s labels end v h = cc
  read_loop-InBounds (suc fuel) s labels end v h =
      elim (Result-cases (read_round unicode message s)) [
        | inr (e, failed) ↦ absurd (ground arith)
        | inl (broken ls last, found) ↦
            let good = read_round-Good s (broken ls last) v found in ground arith
        | inl (more s', found) ↦
            read_loop-InBounds fuel s' labels end (read_round-Good s (more s') v found).0
              (ground arith)
      ]

name_start-InBounds : (offset n : ℕ) → InBounds offset n (name_start offset)
name_start-InBounds offset n = record {
  wire = omega arith;
  few = omega arith;
  after = λ no. omega arith;
  ends = λ e is. cc;
}

module _ (unicode : Unicode) (message : List ℕ) (offset : ℕ) where
  -- Whatever labels and pointers a message holds, reading a name from it comes to the name's end or
  -- to a parse error within 272 rounds.
  pub read_name-ne-out_of_fuel : read_name unicode message offset ≢ err out_of_fuel
  unfolding read_name
  read_name-ne-out_of_fuel h =
      let v = name_start-InBounds offset (length message) in
      ground
        (arith, read_loop-ne-out_of_fuel unicode message offset name_fuel (name_start offset) v)

  -- A name that is read ends behind its offset and inside the message, also if it goes on at
  -- compression pointers.
  pub read_name-InBounds :
      (name : Text) (end : ℕ)
      → read_name unicode message offset ≡ ok (name, end)
      → (offset < end) × (end ≤ length message)
  unfolding read_name
  read_name-InBounds name end h =
      let v = name_start-InBounds offset (length message) in
      elim (Result-cases (read_loop unicode message name_fuel (name_start offset))) [
        | inr (e, failed) ↦ absurd (ground arith)
        | inl ((labels, last), found) ↦
            let inside =
              read_loop-InBounds unicode message offset name_fuel (name_start offset) labels last v
                found in
            ground arith
      ]
