-- ===== src/Mdns/Examples.antt =====
-- mdns.py: a small response, and the theorems at it.
use codexnet.Prelude.{
  true, ℕ, ◌≡◌, ◌≢◌, ◌≤◌, ◌<◌, refl, byte_at, slice, List, [], ◌∷◌, ◌++◌, some, none, arith, length,
}
use codexnet.Prelude.Keys.{list_eq, list_beq, nat_eq}
use codexnet.Prelude.Result.{ok, err}
use codexnet.Prelude.Text.{Text, codes, be_value, ipv4_text, octet_text}
use codexnet.OrderedDict.{lookup, put, remove, move_to_end, set_last}
use codexnet.OrderedDict.Shrink.{shrink}
use codexnet.OrderedDict.Sweep.{kept, removed}
use codexnet.Passive.Types.{PassiveFrame, Unicode}
use codexnet.Mdns.Name.{
  out_of_fuel, truncated_header, follow_pointer, take_label, read_round, read_loop, read_name,
  join_dots,
}
use codexnet.Mdns.Name.Bounds.{read_name-InBounds}
use codexnet.Mdns.Message.{
  Bounds, Record, ipv4, parse_address, parse_rdata, skip_questions, record_value, read_records,
  read_sections, parse_message,
}
use codexnet.Mdns.Message.Outcome.{parse_message-ne-out_of_fuel}
use codexnet.Mdns.Fields.{
  MdnsFields, address_fields, identity_eq, fields_of, expiry, observation, same_identity,
}
use codexnet.Mdns.Cache.{
  MdnsParser, CacheEntry, entry_of, apply_record, apply_records, expire_cache, is_mdns, mdns_call,
}
use codexnet.Mdns.Cache.Kept.{IsBounded, announced}
use codexnet.Mdns.Cache.Calls.{mdns_call_tracks, mdns_call_forgets}

abbrev ascii : Unicode
ascii = record { casefold = λ s. s; decode_replace = λ bytes. bytes; decode = λ bytes. some bytes }

abbrev redact : Text → Text → Text
redact key value = value

abbrev bounds : Bounds
bounds = record {
  max_message_bytes = 64;
  max_questions = 1;
  max_records = 1;
  max_txt_bytes = 8;
  max_cache_entries = 1;
  max_ttl_seconds = 9;
}

-- A response with the record "a" IN A 10.0.0.9 and a lifetime of five seconds.
abbrev payload : List ℕ
payload =
    (0 ∷ 0 ∷ 0x84 ∷ 0 ∷ 0 ∷ 0 ∷ 0 ∷ 1 ∷ 0 ∷ 0 ∷ 0 ∷ 0 ∷ [])
    ++ (1 ∷ 97 ∷ 0 ∷ 0 ∷ 1 ∷ 0 ∷ 1 ∷ 0 ∷ 0 ∷ 0 ∷ 5 ∷ 0 ∷ 4 ∷ 10 ∷ 0 ∷ 0 ∷ 9 ∷ [])

abbrev announcement : Record
announcement = record { name = codes "a"; ttl = 5; value = ipv4 (codes "10.0.0.9") }

abbrev identity : MdnsFields
identity = address_fields (codes "a") (codes "10.0.0.9")

abbrev entry : CacheEntry
entry = entry_of 9 announcement 0

abbrev empty_parser : MdnsParser
empty_parser = record { bounds = bounds; cache = [] }

abbrev parser : MdnsParser
parser = record { bounds = bounds; cache = (identity, entry) ∷ [] }

abbrev frame : PassiveFrame
frame = record { protocol = codes "mdns"; payload = payload; observed_at = 0; interface = none }

abbrev late : PassiveFrame
late = record frame { payload = []; observed_at = 5_000_000 }

-- What the runs below compute with.
program : Unit {0}
unfolding lookup put remove move_to_end set_last shrink kept removed list_beq slice byte_at be_value
    ipv4_text octet_text follow_pointer take_label read_round read_loop read_name join_dots
    parse_address parse_rdata skip_questions record_value read_records read_sections parse_message
    fields_of expiry observation same_identity apply_record apply_records expire_cache is_mdns
    mdns_call
program = tt

named : read_name ascii payload 12 ≡ ok (codes "a", 15)
unfolding program
named = refl

read_name-InBounds_example : (12 < 15) × (15 ≤ length payload)
read_name-InBounds_example = read_name-InBounds ascii payload 12 (codes "a") 15 named

parse_message-ne-out_of_fuel_example : parse_message ascii redact bounds payload ≢ err out_of_fuel
parse_message-ne-out_of_fuel_example = parse_message-ne-out_of_fuel ascii redact bounds payload

parses : parse_message ascii redact bounds payload ≡ ok (announcement ∷ [])
unfolding program
parses = refl

empty-IsBounded : IsBounded empty_parser
empty-IsBounded = record { room = omega arith; bounded = omega arith; distinct = tt }

parser-IsBounded : IsBounded parser
unfolding program
parser-IsBounded = record { room = omega arith; bounded = omega arith; distinct = (refl, tt) }

is_one : is_mdns (codes "mdns") ≡ true
unfolding program
is_one = refl

cached : lookup identity (mdns_call ascii redact empty_parser frame).0.cache ≡ some entry
unfolding program
cached = refl

mdns_call_tracks_example :
    announced 9 0 identity
      (announcement ∷ [])
      (lookup identity (expire_cache empty_parser 0).0.cache)
    ≡ some entry
mdns_call_tracks_example =
    mdns_call_tracks ascii redact empty_parser frame identity (announcement ∷ []) entry
      empty-IsBounded is_one parses cached

fails : parse_message ascii redact bounds [] ≡ err truncated_header
unfolding program
fails = refl

held : lookup identity parser.cache ≡ some entry
unfolding program
held = refl

due : entry.expires_at ≤ 5_000_000
unfolding program
due = omega arith

mdns_call_forgets_example :
    ((mdns_call ascii redact parser late).1 ≡ err truncated_header)
    × (lookup identity (mdns_call ascii redact parser late).0.cache ≡ none)
mdns_call_forgets_example =
    mdns_call_forgets ascii redact parser late identity entry truncated_header parser-IsBounded
      is_one fails held due
