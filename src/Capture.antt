-- ===== src/Capture.antt =====
-- passive_service.py, `decode_ethernet`: the payloads of the supported protocols in a captured frame.
pub mod Inside
mod Examples
use codexnet.Prelude.{
  ℕ, ◌+◌, ◌*◌, ◌/◌, ◌%◌, Bool, true, false, not, ◌||◌, ◌&&◌, Option, none, some, List, [], ◌∷◌,
  length, take, drop, slice, byte_at, ltb, leb, nat_beq, if◌then◌else◌,
}
use codexnet.Prelude.Keys.{list_beq, nat_eq}
use codexnet.Prelude.Text.{Text, codes, be_value}

abbrev pub max_capture_bytes : ℕ
max_capture_bytes = 9_216

abbrev cdp_destination : List ℕ
cdp_destination = 0x01 ∷ 0x00 ∷ 0x0c ∷ 0xcc ∷ 0xcc ∷ 0xcc ∷ []

abbrev cdp_snap : List ℕ
cdp_snap = 0xaa ∷ 0xaa ∷ 0x03 ∷ 0x00 ∷ 0x00 ∷ 0x0c ∷ 0x20 ∷ 0x00 ∷ []

abbrev eth_p_ip : ℕ
eth_p_ip = 0x0800

abbrev eth_p_arp : ℕ
eth_p_arp = 0x0806

abbrev eth_p_lldp : ℕ
eth_p_lldp = 0x88cc

-- protocol in {ETH_P_8021Q, ETH_P_8021AD}
abbrev is_tagged : ℕ → Bool
is_tagged protocol = nat_beq protocol 0x8100 || nat_beq protocol 0x88a8

-- The protocol of a UDP body by its ports: 5353, or 67 and 68.
unfoldable pub udp_protocol : ℕ → ℕ → Option Text
udp_protocol source destination =
    if nat_beq source 5353 || nat_beq destination 5353
    then some (codes "mdns")
    else if nat_beq source 67
        || nat_beq source 68
        || nat_beq destination 67
        || nat_beq destination 68
    then some (codes "dhcp")
    else none

-- The UDP datagram of an unfragmented IPv4 packet.
unfoldable pub decode_udp : List ℕ → Option (Text × List ℕ)
decode_udp udp =
    let udp_length = be_value (slice 4 6 udp) in
    if ltb udp_length 8 || ltb (length udp) udp_length
    then none
    else elim (udp_protocol (be_value (slice 0 2 udp)) (be_value (slice 2 4 udp))) [
      | none ↦ none
      | some protocol ↦ some (protocol, slice 8 udp_length udp)
    ]

-- _decode_ipv4_udp
unfoldable pub decode_ipv4_udp : List ℕ → Option (Text × List ℕ)
decode_ipv4_udp payload =
    let header_length = byte_at payload 0 % 16 * 4 in
    let total_length = be_value (slice 2 4 payload) in
    let fragmented = not (nat_beq (be_value (slice 6 8 payload) % 0x4000) 0) in
    if ltb (length payload) 28 || not (nat_beq (byte_at payload 0 / 16) 4)
    then none
    else if ltb header_length 20
        || ltb total_length (header_length + 8)
        || ltb (length payload) total_length
        || not (nat_beq (byte_at payload 9) 17)
        || fragmented
    then none
    else decode_udp (slice header_length total_length payload)

-- The dispatch on the protocol number, behind the Ethernet header and the tag.
unfoldable pub decode_payload : List ℕ → ℕ → List ℕ → Option (Text × List ℕ)
decode_payload destination protocol payload =
    if nat_beq protocol eth_p_lldp
    then some (codes "lldp", payload)
    else if nat_beq protocol eth_p_arp
    then some (codes "arp", payload)
    else if nat_beq protocol eth_p_ip
    then decode_ipv4_udp payload
    else if leb protocol 1500
        && list_beq destination cdp_destination
        && list_beq (take 8 payload) cdp_snap
    then some (codes "cdp", drop 8 payload)
    else none

unfoldable pub decode_ethernet : List ℕ → Option (Text × List ℕ)
decode_ethernet packet =
    let protocol = be_value (slice 12 14 packet) in
    if ltb (length packet) 14 || ltb max_capture_bytes (length packet)
    then none
    else if is_tagged protocol
    then (if ltb (length packet) 18
        then none
        else decode_payload (take 6 packet) (be_value (slice 16 18 packet)) (drop 18 packet))
    else decode_payload (take 6 packet) protocol (drop 14 packet)
