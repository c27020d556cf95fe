-- ===== src/Dhcp/Examples.antt =====
-- dhcp.py: small messages, and the theorems at them.
use codexnet.OrderedDict.{pop_first, trim, set_last, move_to_end, remove, put, lookup}
use codexnet.Prelude.Text.{
  mac_text, hex_text, hex_digit, ipv4_text, octet_text, be_value, Text, codes,
}
use codexnet.Prelude.{
  slice, byte_at, zero, ◌⊎◌, drop, suc, ◌≢◌, ℕ, ◌≡◌, refl, none, some, List, [], ◌∷◌, ◌++◌, arith,
}
use codexnet.Prelude.Result.{err, ok}
use codexnet.Passive.Types.{PassiveFrame, PassiveObservation, Unicode}
use codexnet.Prelude.Keys.{nat_eq, list_eq, list_beq}
use codexnet.Dhcp.Options.{
  Options, options, options_loop, next_option, fixed, seconds, address_list, address_chunks,
  option_text, out_of_fuel, dhcp_fixed_bytes,
}
use codexnet.Dhcp.Options.Encoding.{
  Item, pad, opt, encode, values, IsFresh, options-encode, options_sound, options-ne-out_of_fuel,
}
use codexnet.Dhcp.Message.{
  ack, message_type_of, Readings, read_options, message_of, parse_dhcp, check_header, checked_type,
  typed, nonzero_ipv4, identifier_text, client_mac_of, DhcpFields,
}
use codexnet.Dhcp.Message.Accepted.{IsBootp, IsMessage, parse_dhcp_sound}
use codexnet.Dhcp.Leases.{DhcpParser, new_parser, granted, track, call, remember, message, reuse_of}
use codexnet.Dhcp.Leases.Tracking.{Reports, reuse_exact}
use codexnet.Dhcp.Leases.History.{
  grant_or, with_message, run_frames, parsed_messages, latest, tracked-eq-latest,
}

abbrev zeros : ℕ → List ℕ
zeros zero = []
zeros (suc n) = 0 ∷ zeros n

abbrev ascii : Unicode
ascii = record { casefold = λ s. s; decode_replace = λ bytes. bytes; decode = λ bytes. some bytes }

abbrev redact : Text → Text
redact s = s

-- op 2, Ethernet, transaction 1..4, yiaddr 10.0.0.9, chaddr 2:0:0:0:0:1
abbrev header : List ℕ
header =
    (2 ∷ 1 ∷ 6 ∷ 0 ∷ 1 ∷ 2 ∷ 3 ∷ 4 ∷ zeros 8)
    ++ (10 ∷ 0 ∷ 0 ∷ 9 ∷ zeros 8)
    ++ (2 ∷ 0 ∷ 0 ∷ 0 ∷ 0 ∷ 1 ∷ zeros 202)
    ++ (0x63 ∷ 0x82 ∷ 0x53 ∷ 0x63 ∷ [])

-- an acknowledgement with a lease of 3600 seconds
abbrev items : List Item
items = opt 53 (5 ∷ []) ∷ pad ∷ opt 51 (0 ∷ 0 ∷ 14 ∷ 16 ∷ []) ∷ []

abbrev payload : List ℕ
payload = header ++ (53 ∷ 1 ∷ 5 ∷ 0 ∷ 51 ∷ 4 ∷ 0 ∷ 0 ∷ 14 ∷ 16 ∷ 255 ∷ 7 ∷ [])

abbrev opts : Options
opts = (53, 5 ∷ []) ∷ (51, 0 ∷ 0 ∷ 14 ∷ 16 ∷ []) ∷ []

-- What the runs below compute with.
program : Unit {0}
unfolding options options_loop next_option fixed seconds address_list address_chunks option_text
    lookup put remove move_to_end set_last trim pop_first encode values parse_dhcp check_header
    read_options message_of checked_type typed message_type_of nonzero_ipv4 identifier_text
    client_mac_of mac_text hex_text hex_digit ipv4_text octet_text be_value list_beq slice byte_at
    granted track call remember reuse_of new_parser run_frames parsed_messages latest grant_or
    with_message
program = tt

items-IsFresh : IsFresh [] items
unfolding program
items-IsFresh = ground arith

options-encode_example : options (header ++ (encode items ++ 255 ∷ 7 ∷ [])) ≡ ok (values items)
options-encode_example = options-encode header items (7 ∷ []) refl items-IsFresh

read_back : options payload ≡ ok opts
unfolding program
read_back = refl

options_sound_example :
    (is : List Item) × (tail : List ℕ) × (drop dhcp_fixed_bytes payload ≡ encode is ++ 255 ∷ tail)
    × IsFresh [] is
    × (opts ≡ values is)
options_sound_example = options_sound payload opts read_back

options-ne-out_of_fuel_example : options payload ≢ err out_of_fuel
options-ne-out_of_fuel_example = options-ne-out_of_fuel payload

abbrev frame : PassiveFrame
frame = record { protocol = codes "dhcp"; payload = payload; observed_at = 0; interface = none }

abbrev readings : Readings
readings = record {
  type = ack;
  server = none;
  requested = none;
  lease = some 3600;
  renewal = none;
  rebinding = none;
  hostname = none;
  vendor = none;
  routers = [];
  dns = [];
  domain = none;
}

abbrev acknowledged : PassiveObservation DhcpFields
acknowledged = message_of frame opts readings

parses : parse_dhcp ascii redact frame ≡ ok acknowledged
unfolding program
parses = refl

parse_dhcp_sound_example : IsBootp ascii frame × IsMessage frame acknowledged
parse_dhcp_sound_example = parse_dhcp_sound ascii redact frame acknowledged parses

abbrev parser : DhcpParser
parser = record { max_tracked_leases = 2; leases = [] }

created : new_parser 2 ≡ some parser
unfolding program
created = refl

lease_granted : granted acknowledged.fields ≡ some (codes "10.0.0.9", codes "02:00:00:00:00:01")
unfolding program
lease_granted = refl

abbrev other_client : DhcpParser
other_client = record parser { leases = (codes "10.0.0.9", codes "aa") ∷ [] }

reuse_exact_example :
    (((track other_client acknowledged).1 ≡ message acknowledged ∷ [])
      × ((previous : Text)
          → lookup (codes "10.0.0.9") other_client.leases ≡ some previous
          → previous ≡ codes "02:00:00:00:00:01"))
    ⊎ ((previous : Text) × Reports other_client acknowledged
          (codes "10.0.0.9")
          (codes "02:00:00:00:00:01")
          previous)
reuse_exact_example =
    reuse_exact other_client acknowledged (codes "10.0.0.9") (codes "02:00:00:00:00:01")
      lease_granted

tracked :
    lookup (codes "10.0.0.9") (run_frames ascii redact parser (frame ∷ [])).leases
    ≡ some (codes "02:00:00:00:00:01")
unfolding program
tracked = refl

tracked-eq-latest_example :
    latest (codes "10.0.0.9") (parsed_messages ascii redact (frame ∷ [])) none
    ≡ some (codes "02:00:00:00:00:01")
tracked-eq-latest_example =
    tracked-eq-latest ascii redact 2 parser (frame ∷ []) (codes "10.0.0.9")
      (codes "02:00:00:00:00:01") created tracked
