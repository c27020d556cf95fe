-- ===== src/Correlation/Examples.antt =====
-- correlation.py: three observations of which two share a hardware address, and the theorems at
-- them.
use codexnet.Correlation.Merge.{
  claims_of, interface_macs, stable_index, stable_claims, merge_keys, merge_key, merge_claims, load,
  all_identifiers,
}
use codexnet.OrderedDict.Groups.{collect_into, entry, append_to}
use codexnet.Correlation.Identity.{
  is_hex_digit, normalize_mac, normalize_identifier, require_text, normalize_hostname, lower_digit,
  last_is_dash, join_spaces, is_label_char, is_bad_label, pair_digits, duplicate_id,
  CorrelationError, Platform, Moment, mac, hostname, not_encodable, is_encodable,
}
use codexnet.Prelude.Addresses.{
  without_separators, split_dots, is_octet, is_ipv4_text, is_digit, decimal_from,
}
use codexnet.Prelude.Text.{strip, strip_right, strip_left, is_space, Text, codes}
use codexnet.Correlation.Evidence.{
  new_identity, CanonicalDevice, CorrelationConflict, CorrelationDecision, CorrelationResult,
  DeviceObservation, IdentityEvidence, InterfaceEvidence,
}
use codexnet.Prelude.Keys.{list_beq, ◌==◌, nat_eq, list_eq}
use codexnet.OrderedDict.{put, is_key, lookup}
use codexnet.Prelude.Order.{
  list_lt, sort_by, sorted_set, insert_new, insert_by, nat_order, list_order,
}
use codexnet.Correlation.UnionFind.{union, parent_of, link, find_loop, find}
use codexnet.Correlation.Devices.{
  stable_keys, stable_confidences, merge_all, matching_confidences, group_known, device_of,
  canonical_key_of, build_devices, build_device, correlate,
}
use codexnet.Correlation.Conflicts.{
  uses_of, serial_values, serial_conflicts, reused_conflicts, find_conflicts, field_conflicts,
  facts_by_field, device_uses, device_conflicts, all_conflicts,
}
use codexnet.Correlation.Devices.Components.{same_device_iff, ids_of}
use codexnet.Correlation.Devices.Outcome.{correlate_outcome, AllNamed, uses_of_id, HasUnencodable}
use codexnet.Prelude.{
  inr, sym, ◌⊎◌, flat_map, inl, ◌↔◌, ◌≤◌, refl, ◌≡◌, map, List, String, true, [], ◌∷◌, none, some,
}
use codexnet.Correlation.Conflicts.Disclosure.{reuse_disclosed_iff, Discloses}
use codexnet.Correlation.Devices.Partition.{correlate_partitions}
use codexnet.Correlation.Merge.Identified.{Common}
use codexnet.Correlation.Conflicts.Uses.{Reused}
use codexnet.Correlation.UnionFind.Linked.{Linked}
use mathlib.Core.Path.{subst}
use codexnet.Correlation.Devices.Decisions.{decisions-IsEvident, IsEvident}
use codexnet.Correlation.Devices.Runs.{sorted_observations}
use codexnet.Prelude.Sorting.{Among, count_if}
use codexnet.Prelude.Result.{Result, ok, err}

abbrev platform : Platform
platform = record {
  casefold = λ s. s;
  idna = λ s. some s;
  sha256_hex = λ s. s;
  set_order = λ s. s;
  one = 10;
  merge_level = 8;
  unknown_level = 5;
}

abbrev noon : Moment
noon = record { is_aware = true; isoformat = codes "2026-01-01T12:00:00+00:00" }

abbrev address : IdentityEvidence
address = record {
  kind = mac;
  value = codes "00:11:22:33:44:55";
  source = codes "arp";
  observed_at = noon;
  confidence = 9;
  namespace = none;
}

abbrev name_of_host : IdentityEvidence
name_of_host = record {
  kind = hostname;
  value = codes "printer";
  source = codes "mdns";
  observed_at = noon;
  confidence = 10;
  namespace = none;
}

abbrev port : InterfaceEvidence
port = record {
  interface_key = codes "1";
  source = codes "snmp";
  observed_at = noon;
  name = none;
  mac_address = some (codes "00:11:22:33:44:55");
  confidence = 10;
}

abbrev seen : String → List IdentityEvidence → List InterfaceEvidence → DeviceObservation
seen id items ports = record {
  observation_id = codes id;
  source = codes "test";
  observed_at = noon;
  identifiers = items;
  interfaces = ports;
  facts = [];
}

abbrev observations : List DeviceObservation
observations =
    seen "c" (name_of_host ∷ []) []
    ∷ seen "b" [] (port ∷ [])
    ∷ seen "a" (address ∷ name_of_host ∷ []) []
    ∷ []

-- What the runs below compute with.
program : Unit {0}
unfolding pair_digits all_conflicts device_conflicts device_uses facts_by_field field_conflicts
    find_conflicts reused_conflicts serial_conflicts serial_values uses_of build_device
    build_devices canonical_key_of is_encodable device_of group_known matching_confidences merge_all
    stable_confidences stable_keys is_bad_label is_label_char join_spaces last_is_dash lower_digit
    normalize_hostname load merge_claims merge_key merge_keys stable_claims stable_index find
    find_loop link parent_of union append_to entry lookup decimal_from is_digit is_ipv4_text
    is_octet split_dots insert_by insert_new sorted_set is_space strip_left strip_right correlate
    sort_by list_lt is_key all_identifiers interface_macs put list_beq new_identity require_text
    strip normalize_identifier normalize_mac without_separators is_hex_digit collect_into claims_of
program = tt

abbrev empty_result : CorrelationResult
empty_result = record { devices = []; decisions = []; conflicts = [] }

abbrev result_or_empty : Result CorrelationError CorrelationResult → CorrelationResult
result_or_empty (ok r) = r
result_or_empty (err e) = empty_result

abbrev result : CorrelationResult
result = result_or_empty (correlate platform observations)

ran : correlate platform observations ≡ ok result
unfolding program
ran = refl

abbrev two_devices : List (List Text)
two_devices = (codes "a" ∷ codes "b" ∷ []) ∷ (codes "c" ∷ []) ∷ []

devices_found : map (λ d. d.observation_ids) result.devices ≡ two_devices
unfolding program
devices_found = refl

abbrev one_conflict : List Text
one_conflict = codes "hostname:printer" ∷ []

conflicts_found : map (λ c. c.key) result.conflicts ≡ one_conflict
unfolding program
conflicts_found = refl

abbrev merged_by_address : CorrelationDecision
merged_by_address = record {
  left_observation_id = codes "a";
  right_observation_id = codes "b";
  evidence_key = codes "mac:00:11:22:33:44:55";
  confidence = 9;
  reason = codes "matched stable identifier; hostname and IP were not used as merge evidence";
}

decided_so : result.decisions ≡ merged_by_address ∷ []
unfolding program
decided_so = refl

same_device_iff_example :
    ((d : CanonicalDevice) × Among d result.devices
      × Among (codes "a") d.observation_ids
      × Among (codes "b") d.observation_ids)
    ↔ Linked (Common platform observations) (codes "a") (codes "b")
same_device_iff_example =
    same_device_iff platform observations result ran (codes "a") (codes "b") (inr (inr (inl refl)))
      (inr (inl refl))

correlate_partitions_example :
    count_if (λ id. id == codes "a") (flat_map (λ d. d.observation_ids) result.devices)
    ≡ count_if (λ id. id == codes "a") (ids_of observations)
correlate_partitions_example =
    correlate_partitions platform observations result ran (λ id. id == codes "a")

decisions-IsEvident_example :
    IsEvident platform (sorted_observations observations) merged_by_address
decisions-IsEvident_example =
    decisions-IsEvident platform observations result ran merged_by_address
      (subst (Among merged_by_address) (sym decided_so) (inl refl))

abbrev Named : DeviceObservation → Type 0
Named o = (items : List IdentityEvidence) × (all_identifiers platform o ≡ ok items)

all_named : AllNamed platform observations
unfolding program
all_named o h = elim h [
  | inl c ↦ subst Named (sym c) (_, refl)
  | inr (inl b) ↦ subst Named (sym b) (_, refl)
  | inr (inr (inl a)) ↦ subst Named (sym a) (_, refl)
  | inr (inr (inr other)) ↦ absurd other
]

correlate_outcome_example :
    ((r : CorrelationResult) × (correlate platform observations ≡ ok r)
      × ((id : Text) → uses_of_id id observations ≤ 1))
    ⊎ ((id : Text) × (correlate platform observations ≡ err (duplicate_id id))
        × (2 ≤ uses_of_id id observations))
    ⊎ ((correlate platform observations ≡ err not_encodable) × HasUnencodable platform observations)
correlate_outcome_example = correlate_outcome platform observations all_named

-- The printer's name stands on both devices.
reuse_disclosed_iff_example :
    ((c : CorrelationConflict) × Discloses platform result.devices
        (codes "hostname", codes "printer")
        c)
    ↔ Reused result.devices (codes "hostname", codes "printer")
reuse_disclosed_iff_example =
    reuse_disclosed_iff platform result.devices (codes "hostname", codes "printer")

abbrev with_surrogate : DeviceObservation
with_surrogate = record (seen "a" [] []) { observation_id = 0xd800 ∷ [] }

-- An ID with a surrogate is refused when its device's key is made.
surrogate_refused : correlate platform (with_surrogate ∷ []) ≡ err not_encodable
unfolding program
surrogate_refused = refl
