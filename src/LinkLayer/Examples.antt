-- ===== src/LinkLayer/Examples.antt =====
-- link_layer.py: a small frame of each protocol, and the theorems at it.
use codexnet.Prelude.{
  All, ℕ, ◌≤◌, ◌≡◌, ◌≢◌, refl, slice, byte_at, none, some, List, [], ◌∷◌, ◌++◌, arith, length,
}
use codexnet.Prelude.Keys.{list_eq, list_beq, nat_eq}
use codexnet.Prelude.Result.{ok}
use codexnet.Prelude.Text.{Text, codes, be_value, mac_text, hex_digit}
use codexnet.OrderedDict.{lookup}
use codexnet.Passive.Types.{PassiveFrame, PassiveObservation, Unicode}
use codexnet.LinkLayer.Tlvs.{Tlv, out_of_fuel, end_tlv, lldp_loop, lldp_tlvs, cdp_loop, cdp_tlvs}
use codexnet.LinkLayer.Tlvs.Encoding.{IsLldp, encode_lldp, zeros, lldp_tlvs-encode, tlvs-outcome}
use codexnet.LinkLayer.Values.{link_text, identifier_of, identifier, subtype_name}
use codexnet.LinkLayer.Lldp.{
  LldpFields, lldp_start, lldp_ttl, lldp_value, lldp_tlv, lldp_fold, lldp_run, lldp_observation,
  parse_lldp,
}
use codexnet.LinkLayer.Lldp.Accepted.{IsLldpNeighbor, parse_lldp-IsLldpNeighbor}
use codexnet.LinkLayer.Cdp.{
  CdpFields, cdp_start, cdp_tlv, cdp_fold, cdp_run, cdp_observation, parse_cdp,
}
use codexnet.LinkLayer.Cdp.Accepted.{IsCdpNeighbor, parse_cdp-IsCdpNeighbor}

abbrev ascii : Unicode
ascii = record { casefold = λ s. s; decode_replace = λ bytes. bytes; decode = λ bytes. some bytes }

abbrev ipv6_text : List ℕ → Text
ipv6_text raw = codes "::"

-- a hardware address, an interface name, and a lifetime of two minutes
abbrev tlvs : List Tlv
tlvs =
    record { type = 1; value = 4 ∷ 2 ∷ 0 ∷ 0 ∷ 0 ∷ 0 ∷ 1 ∷ [] }
    ∷ record { type = 2; value = 5 ∷ 101 ∷ [] }
    ∷ record { type = 3; value = 0 ∷ 120 ∷ [] }
    ∷ []

abbrev payload : List ℕ
payload = 2 ∷ 7 ∷ 4 ∷ 2 ∷ 0 ∷ 0 ∷ 0 ∷ 0 ∷ 1 ∷ 4 ∷ 2 ∷ 5 ∷ 101 ∷ 6 ∷ 2 ∷ 0 ∷ 120 ∷ 0 ∷ 0 ∷ 0 ∷ []

abbrev lldp_frame : PassiveFrame
lldp_frame = record {
  protocol = codes "lldp";
  payload = payload;
  observed_at = 7;
  interface = some (codes "eth0");
}

abbrev shown : PassiveObservation LldpFields
shown =
    let start = lldp_start (some (codes "eth0")) in
    let fields = start.fields in
    lldp_observation ascii ipv6_text lldp_frame (record fields {
      chassis_id = some (codes "mac_address", codes "02:00:00:00:00:01");
      port_id = some (codes "interface_name", codes "e");
      ttl_seconds = some 120;
    })

-- version 2, a lifetime of three minutes, the device "a" and the port "b"
abbrev cdp_frame : PassiveFrame
cdp_frame = record {
  protocol = codes "cdp";
  payload = 2 ∷ 180 ∷ 0 ∷ 0 ∷ 0 ∷ 1 ∷ 0 ∷ 5 ∷ 97 ∷ 0 ∷ 3 ∷ 0 ∷ 5 ∷ 98 ∷ [];
  observed_at = 7;
  interface = none;
}

abbrev cdp_shown : PassiveObservation CdpFields
cdp_shown =
    let fields = cdp_start 2 180 none in
    cdp_observation ascii ipv6_text cdp_frame
      (record fields { chassis_id = some (codes "a"); port_id = some (codes "b") })

-- What the runs below compute with.
program : Unit {0}
unfolding list_beq lookup slice byte_at be_value mac_text hex_digit end_tlv lldp_loop lldp_tlvs
    cdp_loop cdp_tlvs encode_lldp zeros link_text identifier_of identifier subtype_name lldp_ttl
    lldp_value lldp_tlv lldp_fold lldp_run lldp_observation parse_lldp cdp_tlv cdp_fold cdp_run
    cdp_observation parse_cdp
program = tt

describable : All IsLldp tlvs
describable = (
  record { no_end = λ e. omega arith; seven_bits = omega arith; nine_bits = omega arith },
  (
    record { no_end = λ e. omega arith; seven_bits = omega arith; nine_bits = omega arith },
    (record { no_end = λ e. omega arith; seven_bits = omega arith; nine_bits = omega arith }, tt),
  ),
)

short : length (encode_lldp tlvs ++ 0 ∷ 0 ∷ zeros 1) ≤ 4096
unfolding program
short = omega arith

lldp_tlvs-encode_example :
    lldp_tlvs (encode_lldp tlvs ++ 0 ∷ 0 ∷ zeros 1)
    ≡ record { tlvs = tlvs ++ record { type = 0; value = [] } ∷ []; outcome = none }
lldp_tlvs-encode_example = lldp_tlvs-encode tlvs 1 describable (omega arith) short

tlvs-outcome_example :
    ((lldp_tlvs payload).outcome ≢ some out_of_fuel)
    × ((cdp_tlvs payload).outcome ≢ some out_of_fuel)
tlvs-outcome_example = tlvs-outcome payload

parses_lldp : parse_lldp ascii ipv6_text lldp_frame ≡ ok shown
unfolding program
parses_lldp = refl

parse_lldp-IsLldpNeighbor_example : IsLldpNeighbor ascii ipv6_text lldp_frame shown
parse_lldp-IsLldpNeighbor_example =
    parse_lldp-IsLldpNeighbor ascii ipv6_text lldp_frame shown parses_lldp

parses_cdp : parse_cdp ascii ipv6_text cdp_frame ≡ ok cdp_shown
unfolding program
parses_cdp = refl

parse_cdp-IsCdpNeighbor_example : IsCdpNeighbor ascii ipv6_text cdp_frame cdp_shown
parse_cdp-IsCdpNeighbor_example =
    parse_cdp-IsCdpNeighbor ascii ipv6_text cdp_frame cdp_shown parses_cdp
