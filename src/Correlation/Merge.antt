-- ===== src/Correlation/Merge.antt =====
-- correlation.py: `correlate` up to the merged classes: the observations by their IDs, the index of
-- stable identifiers, and the decisions.
pub mod Claims
pub mod Rounds
pub mod Sharing
pub mod Loading
pub mod Identified
use codexnet.Prelude.Order.{list_order, nat_order, pair_order, sort_by}
use codexnet.Prelude.{min, if◌then◌else◌, ◌++◌, [], leb, ◌∷◌, Bool, List, none, some, ◌&&◌}
use codexnet.Prelude.Keys.{list_eq, nat_eq, option_eq, ◌==◌}
use codexnet.Prelude.Text.{codes, Text}
use codexnet.Prelude.Result.{Result, ◌>>=◌, ◌>>◌, raise_if, ok, err}
use codexnet.OrderedDict.{OrderedDict, put, is_key}
use codexnet.OrderedDict.Groups.{entry, collect_into}
use codexnet.Correlation.Identity.{
  CorrelationError, duplicate_id, out_of_fuel, index_error, mac, is_stable_kind, Platform,
}
use codexnet.Correlation.Evidence.{
  IdentityEvidence, InterfaceEvidence, DeviceObservation, CorrelationDecision, evidence_key_of,
  new_identity, identity_sort_key,
}
use codexnet.Correlation.UnionFind.{find, union}

-- An observation with its entry of `identifiers_by_observation`.
pub record Known : Type 0 where
  pub observation : DeviceObservation
  pub items : List IdentityEvidence

abbrev pub id_of : Known → Text
id_of k = k.observation.observation_id

-- One entry of a list of `stable_index`.
abbrev pub Claim : Type 0
Claim = Text × IdentityEvidence

-- The variables of `correlate` that its loop over the evidence keys changes.
pub record Merging : Type 0 where
  pub parent : OrderedDict Text Text
  pub decisions : List CorrelationDecision

abbrev pub merge_reason : Text
merge_reason = codes "matched stable identifier; hostname and IP were not used as merge evidence"

module _ (p : Platform) where
  -- The interfaces' hardware addresses as identity evidence.
  unfoldable pub interface_macs :
      List InterfaceEvidence → Result CorrelationError (List IdentityEvidence)
  interface_macs [] = ok []
  interface_macs (i ∷ is) = elim i.mac_address [
    | none ↦ interface_macs is
    | some address ↦ do
      item ← new_identity p mac address i.source i.observed_at i.confidence none
      rest ← interface_macs is
      ok (item ∷ rest)
  ]

  unfoldable pub all_identifiers :
      DeviceObservation → Result CorrelationError (List IdentityEvidence)
  all_identifiers o = do
    macs ← interface_macs o.interfaces
    ok (sort_by identity_sort_key (o.identifiers ++ macs))

  -- The first loop over `ordered`.
  unfoldable pub load :
      List DeviceObservation
      → OrderedDict Text Text
      → Result CorrelationError (OrderedDict Text Text × List Known)
  load [] parent = ok (parent, [])
  load (o ∷ os) parent = do
    let id = o.observation_id
    raise_if (is_key id parent) (duplicate_id id)
    items' ← all_identifiers o
    (parent', rest) ← load os (put id id parent)
    ok (parent', record { observation = o; items = items' } ∷ rest)

  -- identifier.kind in _STABLE_KINDS and identifier.confidence >= 0.8
  abbrev pub is_stable : IdentityEvidence → Bool
  is_stable item = is_stable_kind item.kind && leb p.merge_level item.confidence

  unfoldable pub stable_claims : Text → List IdentityEvidence → List (Text × Claim)
  stable_claims id [] = []
  stable_claims id (item ∷ items) =
      let rest = stable_claims id items in
      if is_stable item then (evidence_key_of item, (id, item)) ∷ rest else rest

  -- What the loop over `ordered` and its identifiers appends to `stable_index`, in order.
  unfoldable pub claims_of : List Known → List (Text × Claim)
  unfolding stable_claims
  claims_of [] = []
  claims_of (k ∷ ks) = stable_claims (id_of k) k.items ++ claims_of ks

  unfoldable pub stable_index : List Known → OrderedDict Text (List Claim)
  stable_index known = collect_into [] (claims_of known)

-- for other_id, other_evidence in claims[1:]
unfoldable pub merge_claims : Text → Claim → List Claim → Merging → Result CorrelationError Merging
merge_claims key first [] s = ok s
merge_claims key first (other ∷ others) s = elim (find s.parent first.0) [
  | none ↦ err out_of_fuel
  | some (first_root, d1) ↦ elim (find d1 other.0) [
    | none ↦ err out_of_fuel
    | some (other_root, d2) ↦
        if first_root == other_root
        then merge_claims key first others (record s { parent = d2 })
        else elim (union d2 first.0 other.0) [
          | none ↦ err out_of_fuel
          | some d3 ↦ merge_claims key first others (record {
            parent = d3;
            decisions =
                s.decisions
                ++ record {
                  left_observation_id = first.0;
                  right_observation_id = other.0;
                  evidence_key = key;
                  confidence = min first.1.confidence other.1.confidence;
                  reason = merge_reason;
                }
                  ∷ [];
          })
        ]
  ]
]

abbrev pub merge_sorted : Text → List Claim → Merging → Result CorrelationError Merging
merge_sorted key [] s = err index_error
merge_sorted key (first ∷ others) s = merge_claims key first others s

-- The body of the loop over the sorted keys.
unfoldable pub merge_key : Text → List Claim → Merging → Result CorrelationError Merging
merge_key key claims s = merge_sorted key (sort_by (λ c. c.0) claims) s

unfoldable pub merge_keys :
    List Text → OrderedDict Text (List Claim) → Merging → Result CorrelationError Merging
unfolding merge_key merge_claims
merge_keys [] index s = ok s
merge_keys (key ∷ rest) index s = do
  s' ← merge_key key (entry key index) s
  merge_keys rest index s'
