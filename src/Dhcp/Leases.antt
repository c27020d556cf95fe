-- ===== src/Dhcp/Leases.antt =====
-- dhcp.py: `DhcpParser`, which tracks the clients of assigned addresses.
pub mod Tracking
pub mod History
use codexnet.Prelude.{ℕ, Option, none, some, List, [], ◌∷◌, length, ltb, if◌then◌else◌}
use codexnet.Prelude.Keys.{list_eq, nat_eq, ◌==◌}
use codexnet.Prelude.Result.{Result, ok, err}
use codexnet.Prelude.Text.{Text, codes, truthy}
use codexnet.OrderedDict.{OrderedDict, lookup, set_last, trim}
use codexnet.Passive.Types.{PassiveFrame, PassiveObservation, Unicode}
use codexnet.Dhcp.Options.{DhcpError}
use codexnet.Dhcp.Message.{ack, DhcpFields, parse_dhcp}

pub record DhcpParser : Type 0 where
  pub max_tracked_leases : ℕ
  pub leases : OrderedDict Text Text

-- DhcpParser(...): `none` stands for the ValueError
unfoldable pub new_parser : ℕ → Option DhcpParser
new_parser capacity =
    if ltb capacity 1 then none else some (record { max_tracked_leases = capacity; leases = [] })

unfoldable pub tracked_lease_count : DhcpParser → ℕ
tracked_lease_count p = length p.leases

-- The fields of a `dhcp_address_reuse` observation.
pub record ReuseFields : Type 0 where
  pub address : Text
  pub previous_client : Text
  pub current_client : Text
  pub interface : Option Text

pub data DhcpEvent : Type 0 where
  message : PassiveObservation DhcpFields → DhcpEvent
  reuse : PassiveObservation ReuseFields → DhcpEvent

-- fields.get("client_mac") or fields.get("client_identifier"), and `not client`
abbrev pub client_of : DhcpFields → Option Text
client_of f = elim (truthy f.client_mac) [ some c ↦ some c | none ↦ truthy f.client_identifier ]

-- The address and the client of an acknowledged lease; `none` is the early return.
unfoldable pub granted : DhcpFields → Option (Text × Text)
granted f = elim f.message_type [
  | ack ↦ elim f.assigned_address [
    | none ↦ none
    | some address ↦ elim (client_of f) [ none ↦ none | some client ↦ some (address, client) ]
  ]
  | _ ↦ none
]

unfoldable pub reuse_report :
    PassiveObservation DhcpFields → Text → Text → Text → PassiveObservation ReuseFields
reuse_report msg address client previous = record {
  kind = codes "dhcp_address_reuse";
  fields = record {
    address = address;
    previous_client = previous;
    current_client = client;
    interface = msg.fields.interface;
  };
  source = codes "passive.dhcp";
  observed_at = msg.observed_at;
  expires_at = none;
}

-- if previous is not None and previous != client_text
unfoldable pub reuse_of : PassiveObservation DhcpFields → Text → Text → Option Text → List DhcpEvent
reuse_of msg address client none = []
reuse_of msg address client (some previous) =
    if previous == client then [] else reuse (reuse_report msg address client previous) ∷ []

-- self._leases[assigned] = client_text; move_to_end; popitem past the capacity
unfoldable pub remember : DhcpParser → Text → Text → DhcpParser
remember p address client = record p {
  leases = trim p.max_tracked_leases (set_last address client p.leases);
}

unfoldable pub track : DhcpParser → PassiveObservation DhcpFields → DhcpParser × List DhcpEvent
track p msg = elim (granted msg.fields) [
  | none ↦ (p, message msg ∷ [])
  | some (address, client) ↦ (
    remember p address client,
    message msg ∷ reuse_of msg address client (lookup address p.leases),
  )
]

-- DhcpParser.__call__: a frame that does not parse leaves the leases alone.
unfoldable pub call :
    Unicode
    → (Text → Text)
    → DhcpParser
    → PassiveFrame
    → DhcpParser × Result DhcpError (List DhcpEvent)
call unicode redact p frame = elim (parse_dhcp unicode redact frame) [
  | err e ↦ (p, err e)
  | ok msg ↦ let (p', events) = track p msg in (p', ok events)
]
