-- ===== src/LinkLayer/Tlvs.antt =====
-- link_layer.py, `_lldp_tlvs` and `_cdp_tlvs`: the elements of a frame.
pub mod Encoding
use codexnet.Prelude.{
  ℕ, zero, suc, ◌+◌, ◌-◌, ◌*◌, ◌/◌, ◌%◌, Bool, true, false, not, ◌||◌, Option, none, some, List, [],
  ◌∷◌, length, take, drop, any, ltb, leb, nat_beq, if◌then◌else◌,
}

-- The `PassiveParseError`s of the module, one constructor for each message. `not_an_address` is the
-- ValueError of `ipaddress`. `out_of_fuel` is no Python value: the loops raise it when their fuel is
-- used up.
pub data LinkError : Type 0 where
  wrong_protocol bad_frame_length truncated_header truncated_value too_many_tlvs : LinkError
  bad_end_tlv bytes_behind_end : LinkError
  duplicate_mandatory missing_end missing_mandatory bad_ttl : LinkError
  bad_identifier bad_mac bad_text undecodable_text bad_capabilities : LinkError
  bad_management_address truncated_management_address : LinkError
  bad_network_address unsupported_family truncated_organizational bad_vlan : LinkError
  unsupported_version bad_cdp_tlv bad_cdp_addresses missing_identity : LinkError
  not_an_address out_of_fuel : LinkError

-- One element: its type and its value.
pub record Tlv : Type 0 where
  pub type : ℕ
  pub value : List ℕ

-- What a generator does: it yields elements, and then returns or raises.
pub record Yielded : Type 0 where
  pub tlvs : List Tlv
  pub outcome : Option LinkError

abbrev pub raises : LinkError → Yielded
raises e = record { tlvs = []; outcome = some e }

abbrev pub yields : Tlv → Yielded → Yielded
yields t y = record { tlvs = t ∷ y.tlvs; outcome = y.outcome }

abbrev pub max_tlvs : ℕ
max_tlvs = 128

-- The end element with the checks of what follows it; `any(payload[offset:])` finds a byte but 0.
unfoldable pub end_tlv : ℕ → List ℕ → Yielded
end_tlv len rest =
    if not (nat_beq len 0)
    then raises bad_end_tlv
    else if any (λ b. ltb 0 b) rest
    then raises bytes_behind_end
    else record { tlvs = record { type = 0; value = [] } ∷ []; outcome = none }

-- The `while` loop over `payload[offset:]`: a header has seven bits of type and nine of length.
unfoldable pub lldp_loop : ℕ → ℕ → List ℕ → Yielded
lldp_loop fuel count [] = record { tlvs = []; outcome = none }
lldp_loop fuel count (a ∷ []) = raises truncated_header
lldp_loop zero count (a ∷ b ∷ rest) = raises out_of_fuel
lldp_loop (suc fuel) count (a ∷ b ∷ rest) =
    let header = a * 256 + b in
    let len = header % 512 in
    let behind = lldp_loop fuel (count + 1) (drop len rest) in
    if ltb (length rest) len
    then raises truncated_value
    else if ltb max_tlvs (count + 1)
    then raises too_many_tlvs
    else if nat_beq (header / 512) 0
    then end_tlv len (drop len rest)
    else yields (record { type = header / 512; value = take len rest }) behind

-- _lldp_tlvs; every round takes a byte at least
unfoldable pub lldp_tlvs : List ℕ → Yielded
lldp_tlvs payload =
    if ltb (length payload) 2 || ltb 4096 (length payload)
    then raises bad_frame_length
    else lldp_loop (length payload) 0 payload

-- _cdp_tlvs: a header has two bytes of type and two of length, which counts the header.
unfoldable pub cdp_loop : ℕ → ℕ → List ℕ → Yielded
cdp_loop fuel count [] = record { tlvs = []; outcome = none }
cdp_loop fuel count (a ∷ []) = raises truncated_header
cdp_loop fuel count (a ∷ b ∷ []) = raises truncated_header
cdp_loop fuel count (a ∷ b ∷ c ∷ []) = raises truncated_header
cdp_loop zero count (a ∷ b ∷ c ∷ d ∷ rest) = raises out_of_fuel
cdp_loop (suc fuel) count (a ∷ b ∷ c ∷ d ∷ rest) =
    let len = c * 256 + d in
    let behind = cdp_loop fuel (count + 1) (drop (len - 4) rest) in
    if ltb len 4 || ltb (length rest + 4) len
    then raises bad_cdp_tlv
    else if ltb max_tlvs (count + 1)
    then raises too_many_tlvs
    else yields (record { type = a * 256 + b; value = take (len - 4) rest }) behind

unfoldable pub cdp_tlvs : List ℕ → Yielded
cdp_tlvs bytes = cdp_loop (length bytes) 0 bytes
