-- ===== src/Capture/Inside.antt =====
-- passive_service.py, `decode_ethernet`: what it hands on is the payload of a frame of this shape.
use codexnet.Prelude.{
  ℕ, ◌+◌, ◌-◌, ◌*◌, ◌/◌, ◌%◌, ◌≤◌, ◌≢◌, ◌≡◌, ◌⊎◌, inl, inr, sym, ap, ◌∙◌, some, List, ◌++◌, byte_at,
  true, length, take, drop, slice, take-append-drop, length-take, length-drop, arith, Option-cases,
}
use codexnet.Capture.{
  cdp_destination, cdp_snap, udp_protocol, decode_udp, decode_ipv4_udp, decode_payload,
  decode_ethernet,
}
use codexnet.Prelude.Keys.{list_beq, list_beq_iff, nat_eq}
use mathlib.Core.Path.{subst}
use codexnet.Prelude.Text.{Text, codes, be_value}

-- A body inside bytes, with exactly `n` of them before it.
pub record Behind (n : ℕ) (bytes body : List ℕ) : Type 0 where
  pub before : List ℕ
  pub after : List ℕ
  pub whole : bytes ≡ before ++ (body ++ after)
  pub header : length before ≡ n

slice-Behind : (a b : ℕ) (bytes : List ℕ) → a ≤ length bytes → Behind a bytes (slice a b bytes)
unfolding slice
slice-Behind a b bytes le = record {
  before = take a bytes;
  after = drop (b - a) (drop a bytes);
  whole = sym (
      ap (λ l. take a bytes ++ l) (take-append-drop (b - a) (drop a bytes))
      ∙ take-append-drop a bytes);
  header = omega (arith, length-take a bytes, le);
}

length-slice : (a b : ℕ) (bytes : List ℕ) → b ≤ length bytes → length (slice a b bytes) ≡ b - a
unfolding slice
length-slice a b bytes le =
    omega (arith, length-take (b - a) (drop a bytes), length-drop a bytes, le)

-- One of the two ports is the given one.
abbrev pub HasPort : ℕ → List ℕ → Type 0
HasPort port udp = (be_value (slice 0 2 udp) ≡ port) ⊎ (be_value (slice 2 4 udp) ≡ port)

-- The body of a UDP datagram for one of the protocols: behind its header of eight bytes, and of the
-- length that the header states.
pub record IsDatagram (udp : List ℕ) (p : Text) (body : List ℕ) : Type 0 where
  pub behind : Behind 8 udp body
  pub size : 8 + length body ≡ be_value (slice 4 6 udp)
  pub ports :
      ((p ≡ codes "mdns") × HasPort 5353 udp)
      ⊎ ((p ≡ codes "dhcp") × (HasPort 67 udp ⊎ HasPort 68 udp))

-- An IPv4 packet that carries it: of version 4, with a header of its own length, UDP as its protocol,
-- neither a fragment nor followed by one, and of the total length that the header states.
pub record IsIpv4Udp (packet : List ℕ) (p : Text) (body : List ℕ) : Type 0 where
  pub version : byte_at packet 0 / 16 ≡ 4
  pub full_header : 20 ≤ byte_at packet 0 % 16 * 4
  pub protocol : byte_at packet 9 ≡ 17
  pub unfragmented : be_value (slice 6 8 packet) % 0x4000 ≡ 0
  pub udp : List ℕ
  pub behind : Behind (byte_at packet 0 % 16 * 4) packet udp
  pub size : byte_at packet 0 % 16 * 4 + length udp ≡ be_value (slice 2 4 packet)
  pub datagram : IsDatagram udp p body

-- The payload of a frame of this protocol number, for the parser of this name.
abbrev pub IsPayload : List ℕ → ℕ → List ℕ → Text → List ℕ → Type 0
IsPayload destination protocol payload p body =
    ((protocol ≡ 0x88cc) × (p ≡ codes "lldp") × (body ≡ payload))
    ⊎ ((protocol ≡ 0x0806) × (p ≡ codes "arp") × (body ≡ payload))
    ⊎ ((protocol ≡ 0x0800) × IsIpv4Udp payload p body)
    ⊎ ((protocol ≤ 1500)
        × (p ≡ codes "cdp")
        × (destination ≡ cdp_destination)
        × (payload ≡ cdp_snap ++ body))

udp_protocol-HasPort :
    (udp : List ℕ) (p : Text)
    → udp_protocol (be_value (slice 0 2 udp)) (be_value (slice 2 4 udp)) ≡ some p
    → ((p ≡ codes "mdns") × HasPort 5353 udp)
      ⊎ ((p ≡ codes "dhcp") × (HasPort 67 udp ⊎ HasPort 68 udp))
unfolding udp_protocol
udp_protocol-HasPort udp p h = ground arith

decode_udp-IsDatagram :
    (udp : List ℕ) (p : Text) (body : List ℕ)
    → decode_udp udp ≡ some (p, body)
    → IsDatagram udp p body
unfolding decode_udp
decode_udp-IsDatagram udp p body h =
    let source = be_value (slice 0 2 udp) in
    let destination = be_value (slice 2 4 udp) in
    let udp_length = be_value (slice 4 6 udp) in
    elim (Option-cases (udp_protocol source destination)) [
      | inl unknown ↦ absurd (ground arith)
      | inr (q, known) ↦
          let same : q ≡ p = ground arith in
          let cut : slice 8 udp_length udp ≡ body = ground arith in
          let fits : (8 ≤ udp_length) × (udp_length ≤ length udp) = ground arith in
          let long = length-slice 8 udp_length udp fits.1 in
          record {
            behind = subst (Behind 8 udp) cut (slice-Behind 8 udp_length udp (omega (arith, fits)));
            size = omega (arith, long, ap (λ l. length l) cut, fits);
            ports = udp_protocol-HasPort udp p (known ∙ ap (λ t. some t) same);
          }
    ]

decode_ipv4_udp-IsIpv4Udp :
    (packet : List ℕ) (p : Text) (body : List ℕ)
    → decode_ipv4_udp packet ≡ some (p, body)
    → IsIpv4Udp packet p body
unfolding decode_ipv4_udp
decode_ipv4_udp-IsIpv4Udp packet p body h =
    let header_length = byte_at packet 0 % 16 * 4 in
    let total_length = be_value (slice 2 4 packet) in
    let datagram : decode_udp (slice header_length total_length packet) ≡ some (p, body) =
      ground arith in
    let enough : (20 ≤ header_length)
        × (header_length + 8 ≤ total_length)
        × (total_length ≤ length packet) =
      (ground arith, ground arith, ground arith) in
    record {
      version = ground arith;
      full_header = enough.0;
      protocol = ground arith;
      unfragmented = ground arith;
      udp = slice header_length total_length packet;
      behind = slice-Behind header_length total_length packet (omega (arith, enough));
      size = omega (arith, length-slice header_length total_length packet enough.2, enough);
      datagram = decode_udp-IsDatagram (slice header_length total_length packet) p body datagram;
    }

snap_cut :
    (payload body : List ℕ)
    → take 8 payload ≡ cdp_snap
    → drop 8 payload ≡ body
    → payload ≡ cdp_snap ++ body
snap_cut payload body snap cut =
    sym (take-append-drop 8 payload)
    ∙ ap (λ l. l ++ drop 8 payload) snap
    ∙ ap (λ l. cdp_snap ++ l) cut

decode_payload_cases :
    (destination : List ℕ) (protocol : ℕ) (payload : List ℕ) (p : Text) (body : List ℕ)
    → decode_payload destination protocol payload ≡ some (p, body)
    → ((protocol ≡ 0x88cc) × (p ≡ codes "lldp") × (body ≡ payload))
      ⊎ ((protocol ≡ 0x0806) × (p ≡ codes "arp") × (body ≡ payload))
      ⊎ ((protocol ≡ 0x0800) × (decode_ipv4_udp payload ≡ some (p, body)))
      ⊎ ((protocol ≤ 1500)
          × (p ≡ codes "cdp")
          × (list_beq destination cdp_destination ≡ true)
          × (list_beq (take 8 payload) cdp_snap ≡ true)
          × (drop 8 payload ≡ body))
unfolding decode_payload
decode_payload_cases destination protocol payload p body h = ground arith

decode_payload-IsPayload :
    (destination : List ℕ) (protocol : ℕ) (payload : List ℕ) (p : Text) (body : List ℕ)
    → decode_payload destination protocol payload ≡ some (p, body)
    → IsPayload destination protocol payload p body
decode_payload-IsPayload destination protocol payload p body h =
    elim (decode_payload_cases destination protocol payload p body h) [
      | inl lldp ↦ inl lldp
      | inr (inl arp) ↦ inr (inl arp)
      | inr (inr (inl (is, datagram))) ↦
          inr (inr (inl (is, decode_ipv4_udp-IsIpv4Udp payload p body datagram)))
      | inr (inr (inr (small, name, to, snap, cut))) ↦ inr (
          inr (
            inr (
              small,
              name,
              (list_beq_iff destination cdp_destination).0 to,
              snap_cut payload body ((list_beq_iff (take 8 payload) cdp_snap).0 snap) cut,
            )))
    ]

-- A frame is untagged, or has one tag of four bytes behind its addresses.
abbrev pub IsUntagged : List ℕ → Type 0
IsUntagged packet =
    (14 ≤ length packet)
    × (be_value (slice 12 14 packet) ≢ 0x8100)
    × (be_value (slice 12 14 packet) ≢ 0x88a8)

abbrev pub IsTagged : List ℕ → Type 0
IsTagged packet =
    (18 ≤ length packet)
    × ((be_value (slice 12 14 packet) ≡ 0x8100) ⊎ (be_value (slice 12 14 packet) ≡ 0x88a8))

-- What a captured frame of at most 9,216 bytes is decoded to is the payload behind its Ethernet
-- header, of 14 bytes, or of 18 with a tag 0x8100 or 0x88a8. It is the whole payload for LLDP and
-- ARP by the protocol number, what follows the SNAP header for CDP under its destination address,
-- and for mDNS and DHCP, by the ports, the body of a UDP datagram in an unfragmented IPv4 packet,
-- exactly behind the two headers and of the stated lengths.
pub decode_ethernet-IsPayload :
    (packet : List ℕ) (p : Text) (body : List ℕ)
    → decode_ethernet packet ≡ some (p, body)
    → (length packet ≤ 9216)
      × ((IsUntagged packet
            × IsPayload (take 6 packet) (be_value (slice 12 14 packet)) (drop 14 packet) p body)
          ⊎ (IsTagged packet
              × IsPayload (take 6 packet) (be_value (slice 16 18 packet)) (drop 18 packet) p body))
unfolding decode_ethernet
decode_ethernet-IsPayload packet p body h =
    let how : (IsTagged packet
          × (decode_payload (take 6 packet) (be_value (slice 16 18 packet)) (drop 18 packet)
              ≡ some (p, body)))
        ⊎ (IsUntagged packet
            × (decode_payload (take 6 packet) (be_value (slice 12 14 packet)) (drop 14 packet)
                ≡ some (p, body))) =
      ground arith in
    (
      ground arith,
      elim how [
        | inl (tagged, decoded) ↦
            inr (tagged, decode_payload-IsPayload (take 6 packet) _ (drop 18 packet) p body decoded)
        | inr (plain, decoded) ↦
            inl (plain, decode_payload-IsPayload (take 6 packet) _ (drop 14 packet) p body decoded)
      ],
    )
