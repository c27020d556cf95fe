-- ===== src/Correlation/Conflicts.antt =====
-- correlation.py: `_find_conflicts`.
pub mod Uses
pub mod Disclosure
use codexnet.Prelude.Keys.{pair_eq, list_eq, nat_eq, option_eq}
use codexnet.Prelude.{
  List, length, ltb, [], if◌then◌else◌, map, flat_map, ◌++◌, ◌∷◌, Bool, true, false, ◌&&◌,
}
use codexnet.Prelude.Order.{list_order, nat_order, pair_order, sort_by, sorted_set}
use codexnet.Prelude.Text.{codes, Text}
use codexnet.OrderedDict.Groups.{collect_into}
use codexnet.Correlation.Identity.{
  IdentifierKind, mac, serial, source_id, hostname, ipv4, kind_value, Platform,
}
use codexnet.Correlation.Evidence.{
  IdentityEvidence, FactEvidence, CanonicalDevice, CorrelationConflict,
}

-- kind in {IdentifierKind.HOSTNAME, IdentifierKind.IPV4}
abbrev pub is_reusable : IdentifierKind → Bool
is_reusable hostname = true
is_reusable ipv4 = true
is_reusable mac = false
is_reusable serial = false
is_reusable source_id = false

abbrev is_serial : IdentifierKind → Bool
is_serial serial = true
is_serial mac = false
is_serial source_id = false
is_serial hostname = false
is_serial ipv4 = false

-- An entry of a list of `reusable`, and its key: the kind is a `StrEnum`, so its text is the key.
abbrev pub Use : Type 0
Use = CanonicalDevice × IdentityEvidence

abbrev pub UseKey : Type 0
UseKey = Text × Text

unfoldable pub device_uses : CanonicalDevice → List IdentityEvidence → List (UseKey × Use)
device_uses device [] = []
device_uses device (item ∷ items) =
    let rest = device_uses device items in
    if is_reusable item.kind
    then ((kind_value item.kind, item.value), (device, item)) ∷ rest
    else rest

-- What the first loop appends to `reusable`, in order.
unfoldable pub uses_of : List CanonicalDevice → List (UseKey × Use)
unfolding device_uses
uses_of devices = flat_map (λ device. device_uses device device.identifiers) devices

-- tuple(sorted({claim[0].canonical_key for claim in claims}))
abbrev pub using_keys : List Use → List Text
using_keys uses = sorted_set (map (λ c. c.0.canonical_key) uses)

abbrev pub reused_conflict : UseKey → List Use → CorrelationConflict
reused_conflict key' uses = record {
  conflict_kind = codes "reused_" ++ key'.0;
  key = key'.0 ++ b':' ∷ key'.1;
  canonical_keys = using_keys uses;
  values = key'.1 ∷ [];
  observation_ids = sorted_set (flat_map (λ c. c.0.observation_ids) uses);
  explanation = key'.0 ++ codes " appears on multiple devices and was not used to merge them";
}

unfoldable pub reused_conflicts : List (UseKey × List Use) → List CorrelationConflict
reused_conflicts [] = []
reused_conflicts ((key', uses) ∷ entries) =
    let rest = reused_conflicts entries in
    if ltb 1 (length (using_keys uses)) then reused_conflict key' uses ∷ rest else rest

unfoldable pub serial_values : List IdentityEvidence → List Text
serial_values [] = []
serial_values (item ∷ items) =
    let rest = serial_values items in if is_serial item.kind then item.value ∷ rest else rest

unfoldable pub serial_conflicts : CanonicalDevice → List CorrelationConflict
unfolding serial_values
serial_conflicts device =
    let serials = sorted_set (serial_values device.identifiers) in
    if ltb 1 (length serials)
    then record {
      conflict_kind = codes "conflicting_serial";
      key = codes "serial";
      canonical_keys = device.canonical_key ∷ [];
      values = serials;
      observation_ids = device.observation_ids;
      explanation =
          codes "sources reported different serials for a device joined by other stable evidence";
    }
      ∷ []
    else []

abbrev pub conflict_sort_key : CorrelationConflict → Text × (Text × List Text)
conflict_sort_key c = (c.conflict_kind, (c.key, c.canonical_keys))

module _ (p : Platform) where
  unfoldable pub field_conflicts :
      CanonicalDevice → List (Text × List FactEvidence) → List CorrelationConflict
  field_conflicts device [] = []
  field_conflicts device ((field', facts') ∷ entries) =
      let rest = field_conflicts device entries in
      let found = sort_by p.casefold (p.set_order (sorted_set (map (λ f. f.value) facts'))) in
      let sources = sorted_set (map (λ f. f.source) facts') in
      if ltb 1 (length found) && ltb 1 (length sources)
      then record {
        conflict_kind = codes "source_disagreement";
        key = field';
        canonical_keys = device.canonical_key ∷ [];
        values = found;
        observation_ids = device.observation_ids;
        explanation = codes "multiple sources reported different values; all evidence is retained";
      }
        ∷ rest
      else rest

  -- The entries of `facts_by_field`, sorted by the field.
  unfoldable pub facts_by_field : List FactEvidence → List (Text × List FactEvidence)
  facts_by_field facts' = sort_by (λ e. e.0) (collect_into [] (map (λ f. (f.field, f)) facts'))

  -- The body of the second loop over the devices.
  unfoldable pub device_conflicts : CanonicalDevice → List CorrelationConflict
  unfolding serial_conflicts field_conflicts facts_by_field
  device_conflicts device =
      serial_conflicts device ++ field_conflicts device (facts_by_field device.facts)

  unfoldable pub all_conflicts : List CanonicalDevice → List CorrelationConflict
  unfolding uses_of reused_conflicts device_conflicts
  all_conflicts devices =
      reused_conflicts (sort_by (λ e. e.0) (collect_into [] (uses_of devices)))
      ++ flat_map device_conflicts devices

  unfoldable pub find_conflicts : List CanonicalDevice → List CorrelationConflict
  unfolding all_conflicts
  find_conflicts devices = sort_by conflict_sort_key (all_conflicts devices)
