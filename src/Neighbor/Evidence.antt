-- ===== src/Neighbor/Evidence.antt =====
-- neighbor.py: `NeighborEvidence`, `parse_arp_evidence` and `parse_kernel_neighbor`.
use codexnet.Prelude.{
  ℕ, ◌+◌, ◌*◌, ◌-◌, Bool, true, false, not, ◌||◌, ◌&&◌, Option, none, some, List, [], ◌∷◌, length,
  ltb, leb, nat_beq, any, all, if◌then◌else◌, slice, byte_at,
}
use codexnet.Prelude.Keys.{nat_eq, list_beq}
use codexnet.Prelude.Result.{Result, ok, err, ◌>>=◌, ◌>>◌, raise_if}
use codexnet.Prelude.Text.{Text, codes, be_value, ipv4_text, mac_text, strip}
use codexnet.Prelude.Addresses.{is_ipv4_text, without_separators}
use codexnet.Passive.Types.{Instant, PassiveFrame, Unicode}
use codexnet.Passive.Observation.{Stamp, naive, aware, is_empty}

-- The `PassiveParseError`s of the module, one constructor for each message, and the `ValueError`.
pub data NeighborError : Type 0 where
  bad_ipv4 bad_mac empty_interface_or_source unsupported_state : NeighborError
  wrong_protocol short_payload long_payload unsupported_type unsupported_lengths : NeighborError
  unsupported_operation truncated_addresses unspecified_sender : NeighborError
  missing_dev_or_dst bad_state bad_lladdr : NeighborError
  naive_timestamp : NeighborError

abbrev pub max_arp_payload_bytes : ℕ
max_arp_payload_bytes = 256

-- _VALID_STATES
abbrev pub valid_states : List Text
valid_states =
    codes "permanent"
    ∷ codes "noarp"
    ∷ codes "reachable"
    ∷ codes "stale"
    ∷ codes "none"
    ∷ codes "incomplete"
    ∷ codes "delay"
    ∷ codes "probe"
    ∷ codes "failed"
    ∷ []

unfoldable pub is_valid_state : Text → Bool
is_valid_state state = any (λ s. list_beq state s) valid_states

unfoldable pub checked_ipv4 : Text → Result NeighborError Text
checked_ipv4 value = if is_ipv4_text value then ok value else err bad_ipv4

unfoldable pub hex_value : ℕ → Option ℕ
hex_value c =
    if leb b'0' c && leb c b'9'
    then some (c - b'0')
    else if leb b'a' c && leb c b'f'
    then some (c - 87)
    else if leb b'A' c && leb c b'F'
    then some (c - 55)
    else none

-- the white space that `bytes.fromhex` skips between bytes
unfoldable pub is_ascii_space : ℕ → Bool
is_ascii_space c = nat_beq c 32 || (leb 9 c && leb c 13)

abbrev hex_byte : Option ℕ → Option ℕ → Option (List ℕ) → Option (List ℕ)
hex_byte (some hi) (some lo) (some rest) = some ((hi * 16 + lo) ∷ rest)
hex_byte (some hi) (some lo) none = none
hex_byte (some hi) none rest = none
hex_byte none lo rest = none

-- bytes.fromhex(text); `none` is the ValueError
unfoldable pub from_hex : Text → Option (List ℕ)
from_hex [] = some []
from_hex (c ∷ []) = if is_ascii_space c then some [] else none
from_hex (c ∷ d ∷ rest) =
    let skipped = from_hex (d ∷ rest) in
    let taken = hex_byte (hex_value c) (hex_value d) (from_hex rest) in
    if is_ascii_space c then skipped else taken

unfoldable pub checked_mac : Text → Result NeighborError Text
checked_mac value =
    let plain = without_separators (strip value) in
    if not (nat_beq (length plain) 12)
    then err bad_mac
    else elim (from_hex plain) [ none ↦ err bad_mac | some raw ↦ ok (mac_text raw) ]

pub record NeighborEvidence : Type 0 where
  pub address : Text
  pub mac_address : Option Text
  pub interface : Text
  pub state : Text
  pub source : Text
  pub observed_at : Instant
  pub operation : Option Text

abbrev checked_mac? : Option Text → Result NeighborError (Option Text)
checked_mac? none = ok none
checked_mac? (some value) = do m ← checked_mac value; ok (some m)

abbrev neighbor_utc : Stamp → Result NeighborError Instant
neighbor_utc (naive t) = err naive_timestamp
neighbor_utc (aware t) = ok t

-- NeighborEvidence(...) with its `__post_init__`
unfoldable pub new_evidence :
    Unicode
    → Text
    → Option Text
    → Text
    → Text
    → Text
    → Stamp
    → Option Text
    → Result NeighborError NeighborEvidence
new_evidence unicode address mac_address interface state source observed_at operation = do
  address' ← checked_ipv4 address
  mac ← checked_mac? mac_address
  let interface' = strip interface
  let source' = strip source
  let state' = unicode.casefold (strip state)
  raise_if (is_empty interface' || is_empty source') empty_interface_or_source
  raise_if (not (is_valid_state state')) unsupported_state
  at ← neighbor_utc observed_at
  ok record {
    address = address';
    mac_address = mac;
    interface = interface';
    state = state';
    source = source';
    observed_at = at;
    operation = operation;
  }

-- frame.interface or "unknown"
abbrev interface_or_unknown : Option Text → Text
interface_or_unknown none = codes "unknown"
interface_or_unknown (some []) = codes "unknown"
interface_or_unknown (some (c ∷ cs)) = c ∷ cs

-- The guards of `parse_arp_evidence`, in the order of the source.
unfoldable pub check_arp : Unicode → PassiveFrame → Result NeighborError (Unit {0})
check_arp unicode frame = do
  let payload = frame.payload
  let operation = be_value (slice 6 8 payload)
  raise_if (not (list_beq (unicode.casefold frame.protocol) (codes "arp"))) wrong_protocol
  raise_if (ltb (length payload) 8) short_payload
  raise_if (ltb max_arp_payload_bytes (length payload)) long_payload
  raise_if
      (not (nat_beq (be_value (slice 0 2 payload)) 1)
        || not (nat_beq (be_value (slice 2 4 payload)) 0x0800))
      unsupported_type
  raise_if (not (nat_beq (byte_at payload 4) 6) || not (nat_beq (byte_at payload 5) 4))
      unsupported_lengths
  raise_if (not (nat_beq operation 1 || nat_beq operation 2)) unsupported_operation
  raise_if (ltb (length payload) (8 + 2 * byte_at payload 4 + 2 * byte_at payload 5))
      truncated_addresses
  raise_if (list_beq (ipv4_text (slice 14 18 payload)) (codes "0.0.0.0")) unspecified_sender

unfoldable pub parse_arp_evidence : Unicode → PassiveFrame → Result NeighborError NeighborEvidence
parse_arp_evidence unicode frame = do
  check_arp unicode frame
  let payload = frame.payload
  new_evidence unicode (ipv4_text (slice 14 18 payload)) (some (mac_text (slice 8 14 payload)))
      (interface_or_unknown frame.interface) (codes "reachable") (codes "passive.arp")
      (aware frame.observed_at)
      (some (if nat_beq (be_value (slice 6 8 payload)) 1 then codes "request" else codes "reply"))

-- A value of a decoded `ip -j neighbour` record: missing, text, a list whose elements are text or
-- something else, null, or any other value.
pub data KernelValue : Type 0 where
  missing null other : KernelValue
  text : Text → KernelValue
  items : List (Option Text) → KernelValue

pub record KernelRecord : Type 0 where
  pub dev : KernelValue
  pub dst : KernelValue
  pub state : KernelValue
  pub lladdr : KernelValue

abbrev is_text : Option Text → Bool
is_text none = false
is_text (some s) = true

-- The first element of a non-empty list of texts; the state of a record without one is "none".
unfoldable pub kernel_state : KernelValue → Result NeighborError Text
kernel_state missing = ok (codes "none")
kernel_state (text s) = ok s
kernel_state (items (some s ∷ rest)) = if all is_text rest then ok s else err bad_state
kernel_state (items _) = err bad_state
kernel_state _ = err bad_state

unfoldable pub kernel_mac : KernelValue → Result NeighborError (Option Text)
kernel_mac missing = ok none
kernel_mac null = ok none
kernel_mac (text s) = ok (some s)
kernel_mac _ = err bad_lladdr

abbrev skips : Option Text → Text → Bool
skips none dev = false
skips (some selected) dev = not (list_beq dev selected)

unfoldable pub kernel_evidence :
    Unicode
    → Text
    → Text
    → KernelRecord
    → Stamp
    → Option Text
    → Result NeighborError (Option NeighborEvidence)
kernel_evidence unicode dev dst r observed_at selected =
    let built : Result NeighborError (Option NeighborEvidence) = (do
      state ← kernel_state r.state
      mac ← kernel_mac r.lladdr
      evidence ← new_evidence unicode dst mac dev state (codes "kernel.neighbor") observed_at none
      ok (some evidence)) in
    if skips selected dev then ok none else built

unfoldable pub kernel_neighbor_of :
    Unicode
    → KernelValue
    → KernelValue
    → KernelRecord
    → Stamp
    → Option Text
    → Result NeighborError (Option NeighborEvidence)
kernel_neighbor_of unicode (text dev) (text dst) r observed_at selected =
    kernel_evidence unicode dev dst r observed_at selected
kernel_neighbor_of unicode _ _ r observed_at selected = err missing_dev_or_dst

unfoldable pub parse_kernel_neighbor :
    Unicode → KernelRecord → Stamp → Option Text → Result NeighborError (Option NeighborEvidence)
parse_kernel_neighbor unicode r = kernel_neighbor_of unicode r.dev r.dst r
