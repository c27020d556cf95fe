-- ===== src/Correlation/Devices.antt =====
-- correlation.py: `_canonical_key`, the devices of the classes, and `correlate` as a whole.
pub mod Building
pub mod Runs
pub mod Components
pub mod Outcome
pub mod Partition
pub mod Decisions
use codexnet.Prelude.Keys.{list_eq, nat_eq, option_eq, ◌==◌}
use codexnet.Prelude.Order.{list_order, nat_order, pair_order, sorted_set, sort_by}
use codexnet.Prelude.{
  List, take, map, ◌++◌, any, flat_map, Bool, [], if◌then◌else◌, max, min, ◌∷◌, ℕ, none, some, ◌&&◌,
  not,
}
use codexnet.Correlation.Evidence.{
  fact_sort_key, interface_sort_key, evidence_key_of, identity_sort_key, IdentityEvidence,
  DeviceObservation, CorrelationDecision, CanonicalDevice, CorrelationResult,
}
use codexnet.Prelude.Text.{codes, Text}
use codexnet.OrderedDict.Groups.{keys, append_to}
use codexnet.Prelude.Result.{Result, ◌>>=◌, ◌>>◌, raise_if, ok, err}
use codexnet.OrderedDict.{OrderedDict}
use codexnet.Correlation.Identity.{
  CorrelationError, out_of_fuel, index_error, not_encodable, is_encodable, Platform, is_stable_kind,
}
use codexnet.Correlation.UnionFind.{find}
use codexnet.Correlation.Merge.{Known, id_of, Merging, load, is_stable, stable_index, merge_keys}
use codexnet.Correlation.Conflicts.{find_conflicts}

-- The loop that fills `groups`: `find` halves paths here too.
unfoldable pub group_known :
    List Known
    → OrderedDict Text Text
    → OrderedDict Text (List Known)
    → Result CorrelationError (OrderedDict Text (List Known))
group_known [] parent groups = ok groups
group_known (k ∷ ks) parent groups = elim (find parent (id_of k)) [
  | none ↦ err out_of_fuel
  | some (root, parent') ↦ group_known ks parent' (append_to root k groups)
]

abbrev pub least : ℕ → List ℕ → ℕ
least n [] = n
least n (m ∷ ms) = min n (least m ms)

abbrev pub greatest : ℕ → List ℕ → ℕ
greatest n [] = n
greatest n (m ∷ ms) = max n (greatest m ms)

-- decision.left_observation_id in ids and decision.right_observation_id in ids
abbrev pub is_inside : List Text → CorrelationDecision → Bool
is_inside ids d =
    any (λ id. id == d.left_observation_id) ids && any (λ id. id == d.right_observation_id) ids

unfoldable pub matching_confidences : List Text → List CorrelationDecision → List ℕ
matching_confidences ids [] = []
matching_confidences ids (d ∷ ds) =
    let rest = matching_confidences ids ds in if is_inside ids d then d.confidence ∷ rest else rest

unfoldable pub stable_confidences : List IdentityEvidence → List ℕ
stable_confidences [] = []
stable_confidences (item ∷ items) =
    let rest = stable_confidences items in
    if is_stable_kind item.kind then item.confidence ∷ rest else rest

abbrev pub decision_sort_key : CorrelationDecision → Text × Text
decision_sort_key d = (d.evidence_key, d.left_observation_id)

module _ (p : Platform) where
  unfoldable pub stable_keys : List IdentityEvidence → List Text
  stable_keys [] = []
  stable_keys (item ∷ items) =
      let rest = stable_keys items in if is_stable p item then evidence_key_of item ∷ rest else rest

  -- stable[0] if stable else f"observation:{observations[0].observation_id}"
  abbrev pub seed_of : List Text → List Known → Result CorrelationError Text
  seed_of (key ∷ rest) members = ok key
  seed_of [] [] = err index_error
  seed_of [] (k ∷ ks) = ok (codes "observation:" ++ id_of k)

  -- `_all_identifiers` gives each observation what it gave in `load`.
  unfoldable pub canonical_key_of : List Known → Result CorrelationError Text
  unfolding stable_keys is_encodable
  canonical_key_of members = do
    seed ← seed_of (sorted_set (flat_map (λ k. stable_keys k.items) members)) members
    raise_if (not (is_encodable seed)) not_encodable
    ok (codes "device-" ++ take 20 (p.sha256_hex seed))

  abbrev pub confidence_of : List ℕ → List ℕ → ℕ
  confidence_of (c ∷ cs) stable = least c cs
  confidence_of [] [] = p.unknown_level
  confidence_of [] (c ∷ cs) = greatest c cs

  -- CanonicalDevice(...) of the sorted members of a group
  unfoldable pub device_of : List CorrelationDecision → List Known → Text → CanonicalDevice
  unfolding matching_confidences stable_confidences
  device_of decisions' members key =
      let items' = sort_by identity_sort_key (flat_map (λ k. k.items) members) in
      let ids = map id_of members in
      record {
        canonical_key = key;
        observation_ids = ids;
        identifiers = items';
        interfaces = sort_by interface_sort_key (flat_map (λ k. k.observation.interfaces) members);
        facts = sort_by (fact_sort_key p) (flat_map (λ k. k.observation.facts) members);
        confidence =
            confidence_of (matching_confidences ids decisions') (stable_confidences items');
      }

  -- The body of the loop over `groups.values()`.
  unfoldable pub build_device :
      List CorrelationDecision → List Known → Result CorrelationError CanonicalDevice
  unfolding canonical_key_of device_of
  build_device decisions' group = do
    let members = sort_by id_of group
    key ← canonical_key_of members
    ok (device_of decisions' members key)

  unfoldable pub build_devices :
      List CorrelationDecision
      → OrderedDict Text (List Known)
      → Result CorrelationError (List CanonicalDevice)
  unfolding build_device
  build_devices decisions' [] = ok []
  build_devices decisions' ((root, group) ∷ groups) = do
    device ← build_device decisions' group
    rest ← build_devices decisions' groups
    ok (device ∷ rest)

  -- `correlate` up to the decisions.
  unfoldable pub merge_all : List Known → OrderedDict Text Text → Result CorrelationError Merging
  unfolding stable_index merge_keys
  merge_all known parent' =
      let index = stable_index p known in
      merge_keys (sort_by (λ key. key) (keys index)) index
        (record { parent = parent'; decisions = [] })

  unfoldable pub correlate : List DeviceObservation → Result CorrelationError CorrelationResult
  unfolding load merge_all group_known build_devices find_conflicts
  correlate observations = do
    (parent', known) ← load p (sort_by (λ o. o.observation_id) observations) []
    merged ← merge_all known parent'
    groups ← group_known known merged.parent []
    found ← build_devices merged.decisions groups
    let devices' = sort_by (λ d. d.canonical_key) found
    ok (record {
      devices = devices';
      decisions = sort_by decision_sort_key merged.decisions;
      conflicts = find_conflicts p devices';
    })
