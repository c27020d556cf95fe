-- ===== src/LinkLayer/Values.antt =====
-- link_layer.py: the values of single elements.
use codexnet.LinkLayer.Tlvs.{
  bad_vlan, truncated_management_address, unsupported_family, bad_capabilities, bad_cdp_addresses,
  bad_identifier, bad_mac, bad_management_address, bad_network_address, bad_text, not_an_address,
  truncated_organizational, undecodable_text, LinkError,
}
use codexnet.Prelude.{
  ℕ, zero, suc, ◌+◌, ◌/◌, ◌%◌, not, ◌||◌, ◌&&◌, Option, none, some, List, [], ◌∷◌, ◌++◌, length,
  take, drop, any, byte_at, slice, ltb, nat_beq, if◌then◌else◌,
}
use codexnet.Prelude.Keys.{list_beq, nat_eq}
use codexnet.Prelude.Result.{Result, ok, err, ◌>>=◌, ◌>>◌, raise_if}
use codexnet.Prelude.Text.{Text, codes, be_value, ipv4_text, mac_text, octet_text}
use codexnet.Passive.Types.{Unicode}
use codexnet.OrderedDict.{OrderedDict, lookup}

-- The flags of a capability word, each with its name.
abbrev pub lldp_capabilities : List (ℕ × Text)
lldp_capabilities =
    (0x0001, codes "other")
    ∷ (0x0002, codes "repeater")
    ∷ (0x0004, codes "bridge")
    ∷ (0x0008, codes "wlan_access_point")
    ∷ (0x0010, codes "router")
    ∷ (0x0020, codes "telephone")
    ∷ (0x0040, codes "docsis")
    ∷ (0x0080, codes "station")
    ∷ (0x0100, codes "customer_vlan")
    ∷ (0x0200, codes "service_vlan")
    ∷ (0x0400, codes "two_port_mac_relay")
    ∷ []

abbrev pub cdp_capabilities : List (ℕ × Text)
cdp_capabilities =
    (0x0001, codes "router")
    ∷ (0x0002, codes "transparent_bridge")
    ∷ (0x0004, codes "source_route_bridge")
    ∷ (0x0008, codes "switch")
    ∷ (0x0010, codes "host")
    ∷ (0x0020, codes "igmp")
    ∷ (0x0040, codes "repeater")
    ∷ (0x0080, codes "telephone")
    ∷ (0x0100, codes "remotely_managed")
    ∷ (0x0200, codes "two_port_mac_relay")
    ∷ []

-- [name for bit, name in definitions if value & bit], where each bit is a power of two
unfoldable pub capability_names : ℕ → List (ℕ × Text) → List Text
capability_names value [] = []
capability_names value ((bit, name) ∷ rest) =
    let names = capability_names value rest in
    if nat_beq (value / bit % 2) 1 then name ∷ names else names

abbrev chassis_names : OrderedDict ℕ Text
chassis_names =
    (1, codes "chassis_component")
    ∷ (2, codes "interface_alias")
    ∷ (3, codes "port_component")
    ∷ (4, codes "mac_address")
    ∷ (5, codes "network_address")
    ∷ (6, codes "interface_name")
    ∷ (7, codes "locally_assigned")
    ∷ []

abbrev port_names : OrderedDict ℕ Text
port_names =
    (1, codes "interface_alias")
    ∷ (2, codes "port_component")
    ∷ (3, codes "mac_address")
    ∷ (4, codes "network_address")
    ∷ (5, codes "interface_name")
    ∷ (6, codes "agent_circuit_id")
    ∷ (7, codes "locally_assigned")
    ∷ []

-- names.get(subtype, f"unknown_{subtype}")
unfoldable pub subtype_name : OrderedDict ℕ Text → ℕ → Text
subtype_name names subtype = elim (lookup subtype names) [
  | some name ↦ name
  | none ↦ codes "unknown_" ++ octet_text subtype
]

pub data Identity : Type 0 where
  chassis port : Identity

abbrev pub mac_subtype : Identity → ℕ
mac_subtype chassis = 4
mac_subtype port = 3

abbrev names_of : Identity → OrderedDict ℕ Text
names_of chassis = chassis_names
names_of port = port_names

-- What `ipaddress` prints of sixteen bytes is the caller's.
module _ (unicode : Unicode) (ipv6_text : List ℕ → Text) where
  abbrev decoded : Option Text → Result LinkError Text
  decoded none = err undecodable_text
  decoded (some text) = ok text

  -- _text
  unfoldable pub link_text : List ℕ → ℕ → Result LinkError Text
  link_text value maximum = do
    raise_if
        (nat_beq (length value) 0 || ltb maximum (length value) || any (λ b. nat_beq b 0) value)
        bad_text
    decoded (unicode.decode value)

  -- _network_address: a family of IPv4 or IPv6 with the length of its addresses
  unfoldable pub network_address : List ℕ → Result LinkError Text
  network_address value =
      let family = byte_at value 0 in
      let packed = drop 1 value in
      if ltb (length value) 2
      then err bad_network_address
      else if nat_beq family 1 && nat_beq (length packed) 4
      then ok (ipv4_text packed)
      else if nat_beq family 2 && nat_beq (length packed) 16
      then ok (ipv6_text packed)
      else err unsupported_family

  unfoldable pub identifier_of : Identity → ℕ → List ℕ → Result LinkError Text
  identifier_of identity subtype body =
      if nat_beq subtype (mac_subtype identity)
      then (do raise_if (not (nat_beq (length body) 6)) bad_mac; ok (mac_text body))
      else if nat_beq subtype (mac_subtype identity + 1)
      then network_address body
      else link_text body 255

  -- _identifier: the name of the subtype, and the identifier
  unfoldable pub identifier : List ℕ → Identity → Result LinkError (Text × Text)
  identifier value identity = do
    raise_if (ltb (length value) 2) bad_identifier
    text ← identifier_of identity (byte_at value 0) (drop 1 value)
    ok (subtype_name (names_of identity) (byte_at value 0), text)

  -- _lldp_capabilities
  unfoldable pub capabilities : List ℕ → Result LinkError (List Text × List Text)
  capabilities value = do
    raise_if (not (nat_beq (length value) 4)) bad_capabilities
    ok (
      capability_names (be_value (take 2 value)) lldp_capabilities,
      capability_names (be_value (drop 2 value)) lldp_capabilities,
    )

  -- _lldp_management_address
  unfoldable pub management_address : List ℕ → Result LinkError Text
  management_address value = do
    let address_length = byte_at value 0
    raise_if (ltb (length value) 7) bad_management_address
    raise_if (ltb address_length 2 || ltb (length value) (1 + address_length + 5))
        truncated_management_address
    network_address (slice 1 (1 + address_length) value)

  -- _lldp_organizational: the VLAN of an IEEE 802.1 element of subtype 1
  unfoldable pub organizational : List ℕ → Result LinkError (Option ℕ)
  organizational value =
      if ltb (length value) 4
      then err truncated_organizational
      else if list_beq (take 3 value) (0x00 ∷ 0x80 ∷ 0xc2 ∷ []) && nat_beq (byte_at value 3) 1
      then (if nat_beq (length value) 6 then ok (some (be_value (drop 4 value))) else err bad_vlan)
      else ok none

  -- str(ipaddress.ip_address(address))
  unfoldable pub ip_address : List ℕ → Result LinkError Text
  ip_address address =
      if nat_beq (length address) 4
      then ok (ipv4_text address)
      else if nat_beq (length address) 16
      then ok (ipv6_text address)
      else err not_an_address

  -- One address of the list: its text, if it is one to show, and the bytes behind it.
  unfoldable pub next_address : List ℕ → Result LinkError (Option Text × List ℕ)
  next_address value = do
    raise_if (ltb (length value) 2) bad_cdp_addresses
    let protocol_length = byte_at value 1
    let after = drop 2 value
    raise_if (ltb (length after) protocol_length) bad_cdp_addresses
    let sized = drop protocol_length after
    raise_if (ltb (length sized) 2) bad_cdp_addresses
    let address_length = be_value (take 2 sized)
    let rest = drop 2 sized
    raise_if (ltb (length rest) address_length) bad_cdp_addresses
    (if list_beq (take protocol_length after) (0xcc ∷ [])
          || nat_beq address_length 4
          || nat_beq address_length 16
        then (do
          text ← ip_address (take address_length rest)
          ok (some text, drop address_length rest))
        else ok (none, drop address_length rest))

  abbrev add_text : Option Text → List Text → List Text
  add_text none texts = texts
  add_text (some text) texts = text ∷ texts

  -- The loop over the announced number of addresses.
  unfoldable pub addresses_loop : ℕ → List ℕ → Result LinkError (List Text)
  addresses_loop zero [] = ok []
  addresses_loop zero (b ∷ value) = err bad_cdp_addresses
  addresses_loop (suc n) value = do
    (text, rest) ← next_address value
    texts ← addresses_loop n rest
    ok (add_text text texts)

  -- _cdp_addresses
  unfoldable pub cdp_addresses : List ℕ → Result LinkError (List Text)
  cdp_addresses value = do
    raise_if (ltb (length value) 4) bad_cdp_addresses
    raise_if (ltb 64 (be_value (take 4 value))) bad_cdp_addresses
    addresses_loop (be_value (take 4 value)) (drop 4 value)
