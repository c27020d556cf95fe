-- ===== src/Dhcp/Message.antt =====
-- dhcp.py: `parse_dhcp`, one BOOTP payload as a structured message.
pub mod Accepted
use codexnet.Prelude.{
  ℕ, ◌+◌, ◌*◌, Bool, true, false, not, ◌||◌, ◌&&◌, Option, none, some, List, [], ◌∷◌, length, ltb,
  leb, nat_beq, if◌then◌else◌, slice, byte_at,
}
use codexnet.Prelude.Keys.{nat_eq, list_beq}
use codexnet.Prelude.Result.{Result, ok, err, ◌>>=◌, ◌>>◌, raise_if}
use codexnet.Prelude.Text.{Text, codes, ipv4_text, hex_text, mac_text}
use codexnet.OrderedDict.{lookup}
use codexnet.Passive.Types.{Instant, second, PassiveFrame, PassiveObservation, Unicode}
use codexnet.Dhcp.Options.{
  DhcpError, wrong_protocol, short_frame, oversized_frame, missing_cookie, bad_header,
  bad_message_type, conflicting_type, Options, dhcp_fixed_bytes, options, fixed, seconds,
  address_list, option_text,
}

abbrev pub bootp_header_bytes : ℕ
bootp_header_bytes = 236

abbrev pub max_dhcp_frame_bytes : ℕ
max_dhcp_frame_bytes = 4_096

abbrev pub dhcp_magic_cookie : List ℕ
dhcp_magic_cookie = 0x63 ∷ 0x82 ∷ 0x53 ∷ 0x63 ∷ []

pub data MessageType : Type 0 where
  discover offer request decline ack nak release inform : MessageType

-- _MESSAGE_TYPES
unfoldable pub message_type_of : ℕ → Option MessageType
message_type_of n =
    if nat_beq n 1
    then some discover
    else if nat_beq n 2
    then some offer
    else if nat_beq n 3
    then some request
    else if nat_beq n 4
    then some decline
    else if nat_beq n 5
    then some ack
    else if nat_beq n 6
    then some nak
    else if nat_beq n 7
    then some release
    else if nat_beq n 8
    then some inform
    else none

-- _SERVER_MESSAGES; the other types are _CLIENT_MESSAGES
abbrev pub is_server_message : MessageType → Bool
is_server_message offer = true
is_server_message ack = true
is_server_message nak = true
is_server_message _ = false

-- message_type in {"offer", "ack"}
abbrev pub is_grant : MessageType → Bool
is_grant offer = true
is_grant ack = true
is_grant _ = false

-- message_type in {"request", "ack"}
abbrev is_renewable : MessageType → Bool
is_renewable request = true
is_renewable ack = true
is_renewable _ = false

abbrev is_present {ℓ} : {A : Type ℓ} → Option A → Bool
is_present none = false
is_present (some a) = true

-- The `fields` of a `dhcp_message` observation.
pub record DhcpFields : Type 0 where
  pub message_type : MessageType
  pub transaction_id : Text
  pub client_mac : Option Text
  pub client_identifier : Option Text
  pub client_address : Option Text
  pub requested_address : Option Text
  pub assigned_address : Option Text
  pub server_identifier : Option Text
  pub relay_address : Option Text
  pub lease_seconds : Option ℕ
  pub renewal_seconds : Option ℕ
  pub rebinding_seconds : Option ℕ
  pub hostname : Option Text
  pub vendor_class : Option Text
  pub routers : List Text
  pub dns_servers : List Text
  pub domain_name : Option Text
  pub is_renewal : Bool
  pub interface : Option Text

unfoldable pub nonzero_ipv4 : List ℕ → Option Text
nonzero_ipv4 raw =
    let value = ipv4_text raw in if list_beq value (codes "0.0.0.0") then none else some value

-- `a or b` on optional addresses, which are never empty
abbrev or_else : Option Text → Option Text → Option Text
or_else none b = b
or_else (some a) b = some a

abbrev text_of : Option (List ℕ) → Option Text
text_of none = none
text_of (some raw) = some (ipv4_text raw)

-- client_identifier.hex() if client_identifier else None
unfoldable pub identifier_text : Option (List ℕ) → Option Text
identifier_text none = none
identifier_text (some []) = none
identifier_text (some (b ∷ bs)) = some (hex_text (b ∷ bs))

-- The tests on the value of option 53 and on the BOOTP operation.
unfoldable pub typed : ℕ → Option (List ℕ) → Result DhcpError MessageType
typed operation none = err bad_message_type
typed operation (some raw) = elim (message_type_of (byte_at raw 0)) [
  | none ↦ err bad_message_type
  | some kind ↦
      if not (nat_beq operation (if is_server_message kind then 2 else 1))
      then err conflicting_type
      else ok kind
]

-- The message type, from option 53 and against the BOOTP operation.
unfoldable pub checked_type : ℕ → Options → Result DhcpError MessageType
checked_type operation opts = do value ← fixed opts 53 1; typed operation value

-- The checks of the fixed header, in the order of the source.
unfoldable pub check_header : Unicode → PassiveFrame → Result DhcpError (Unit {0})
check_header unicode frame = do
  let payload = frame.payload
  raise_if (not (list_beq (unicode.casefold frame.protocol) (codes "dhcp"))) wrong_protocol
  raise_if (ltb (length payload) dhcp_fixed_bytes) short_frame
  raise_if (ltb max_dhcp_frame_bytes (length payload)) oversized_frame
  raise_if (not (list_beq (slice bootp_header_bytes dhcp_fixed_bytes payload) dhcp_magic_cookie))
      missing_cookie
  raise_if
      (not (nat_beq (byte_at payload 0) 1 || nat_beq (byte_at payload 0) 2)
        || not (leb 1 (byte_at payload 2) && leb (byte_at payload 2) 16))
      bad_header

-- ":".join(...) if hardware_type == 1 and hardware_length == 6 else None
unfoldable pub client_mac_of : List ℕ → Option Text
client_mac_of payload =
    if nat_beq (byte_at payload 1) 1 && nat_beq (byte_at payload 2) 6
    then some (mac_text (slice 28 (28 + byte_at payload 2) payload))
    else none

abbrev pub expiry_of : MessageType → Option ℕ → Instant → Option Instant
expiry_of kind none at = none
expiry_of kind (some lease) at = if is_grant kind then some (at + lease * second) else none

-- The message type and the values of the options that the message shows.
pub record Readings : Type 0 where
  pub type : MessageType
  pub server : Option (List ℕ)
  pub requested : Option (List ℕ)
  pub lease : Option ℕ
  pub renewal : Option ℕ
  pub rebinding : Option ℕ
  pub hostname : Option Text
  pub vendor : Option Text
  pub routers : List Text
  pub dns : List Text
  pub domain : Option Text

-- The option readers, in the order in which the source calls them.
unfoldable pub read_options : Unicode → (Text → Text) → ℕ → Options → Result DhcpError Readings
read_options unicode redact operation opts = do
  type ← checked_type operation opts
  server ← fixed opts 54 4
  requested ← fixed opts 50 4
  lease ← seconds opts 51
  renewal ← seconds opts 58
  rebinding ← seconds opts 59
  hostname ← option_text unicode redact opts 12
  vendor ← option_text unicode redact opts 60
  routers ← address_list opts 3
  dns ← address_list opts 6
  domain ← option_text unicode redact opts 15
  ok record {
    type = type;
    server = server;
    requested = requested;
    lease = lease;
    renewal = renewal;
    rebinding = rebinding;
    hostname = hostname;
    vendor = vendor;
    routers = routers;
    dns = dns;
    domain = domain;
  }

-- The observation that `parse_dhcp` returns.
unfoldable pub message_of : PassiveFrame → Options → Readings → PassiveObservation DhcpFields
message_of frame opts r =
    let payload = frame.payload in
    let client = nonzero_ipv4 (slice 12 16 payload) in
    let offered = nonzero_ipv4 (slice 16 20 payload) in
    record {
      kind = codes "dhcp_message";
      fields = record {
        message_type = r.type;
        transaction_id = hex_text (slice 4 8 payload);
        client_mac = client_mac_of payload;
        client_identifier = identifier_text (lookup 61 opts);
        client_address = client;
        requested_address = text_of r.requested;
        assigned_address = if is_grant r.type then or_else offered client else client;
        server_identifier = or_else (text_of r.server) (nonzero_ipv4 (slice 20 24 payload));
        relay_address = nonzero_ipv4 (slice 24 28 payload);
        lease_seconds = r.lease;
        renewal_seconds = r.renewal;
        rebinding_seconds = r.rebinding;
        hostname = r.hostname;
        vendor_class = r.vendor;
        routers = r.routers;
        dns_servers = r.dns;
        domain_name = r.domain;
        is_renewal = is_renewable r.type && is_present client;
        interface = frame.interface;
      };
      source = codes "passive.dhcp";
      observed_at = some frame.observed_at;
      expires_at = expiry_of r.type r.lease frame.observed_at;
    }

unfoldable pub parse_dhcp :
    Unicode → (Text → Text) → PassiveFrame → Result DhcpError (PassiveObservation DhcpFields)
parse_dhcp unicode redact frame = do
  check_header unicode frame
  opts ← options frame.payload
  readings ← read_options unicode redact (byte_at frame.payload 0) opts
  ok (message_of frame opts readings)
