-- ===== src/Correlation/Devices/Runs.antt =====
-- `correlate` as a whole: how its result comes about, and what can fail behind the first loop.
use codexnet.Prelude.{refl, ap, length, ◌≡◌, List, [], ◌⊎◌, inl, inr}
use codexnet.Prelude.Order.{list_order, nat_order, pair_order, sort_by}
use codexnet.Correlation.Conflicts.{find_conflicts}
use codexnet.Correlation.Devices.{
  find_conflicts, OrderedDict, Text, sort_by, List, merge_all, correlate, decision_sort_key,
}
use codexnet.OrderedDict.Grouped.{Among-entry, group_member}
use codexnet.OrderedDict.Groups.{collect_into}
use codexnet.OrderedDict.{OrderedDict}
use codexnet.Prelude.Text.{Text}
use codexnet.Prelude.Keys.{nat_eq, list_eq}
use codexnet.Prelude.Result.{ok, err}
use codexnet.Correlation.UnionFind.Linked.{joins}
use codexnet.Correlation.Identity.{Platform, not_encodable}
use codexnet.Correlation.Devices.Building.{
  rooted_member, Unencodable, rooted, group_known_lem, build_devices_lem, AreOf,
}
use codexnet.Correlation.Evidence.{
  DeviceObservation, CorrelationDecision, CanonicalDevice, CorrelationResult,
}
use codexnet.Correlation.Merge.{Known, load, Merging, claims_of, stable_index}
use codexnet.Correlation.Merge.Claims.{Merged}
use codexnet.Correlation.Merge.Rounds.{decisions_of, merge_keys_lem}
use codexnet.Correlation.Merge.Sharing.{index_of, all_keys, all_pairs, Among-all_keys}
use codexnet.Correlation.Merge.Loading.{IsLoaded, load-IsLoaded, empty-Identity}
use codexnet.Correlation.Merge.Identified.{claimed_is_key}

abbrev pub sorted_observations : List DeviceObservation → List DeviceObservation
sorted_observations os = sort_by (λ o. o.observation_id) os

module _ (p : Platform) where
  abbrev pub root_of : List Known → Text → Text
  root_of known = joins (λ x. x) (all_pairs (claims_of p known))

  abbrev pub all_decisions : List Known → List CorrelationDecision
  all_decisions known =
      let claims = claims_of p known in decisions_of (index_of claims) (λ x. x) (all_keys claims)

  -- How a result comes about.
  pub record IsRun (observations : List DeviceObservation) (known : List Known)
      (r : CorrelationResult) : Type 0 where
    pub parents : OrderedDict Text Text
    pub loaded : IsLoaded p (sorted_observations observations) [] parents known
    pub found : List CanonicalDevice
    pub built : AreOf p (collect_into [] (rooted (root_of known) known)) found
    pub count : length found ≡ length (collect_into [] (rooted (root_of known) known))
    pub devices_at : r.devices ≡ sort_by (λ d. d.canonical_key) found
    pub decisions_at : r.decisions ≡ sort_by decision_sort_key (all_decisions known)
    pub conflicts_at : r.conflicts ≡ find_conflicts p r.devices

  merge_all_lem :
      (os : List DeviceObservation) (final : OrderedDict Text Text) (known : List Known)
      → IsLoaded p os [] final known
      → (merged : Merging) × (merge_all p known final ≡ ok merged)
        × Merged
            (λ x. x)
            (all_pairs (claims_of p known))
            (all_decisions known)
            (record { parent = final; decisions = [] })
            merged
  unfolding merge_all stable_index
  merge_all_lem os final known loaded =
      let claims = claims_of p known in
      merge_keys_lem (index_of claims) (all_keys claims) (record { parent = final; decisions = [] })
        (λ x. x) loaded.forest
        (λ key h.
          let (c, among) = (Among-all_keys claims key).0 h in
          (c, (Among-entry key c claims).1 among))
        (λ key h c among.
          claimed_is_key p os [] final known loaded key c ((Among-entry key c claims).0 among))

  -- Behind the first loop the only failure is that of a text that has no UTF-8 form.
  pub run_lem :
      (observations : List DeviceObservation) (final : OrderedDict Text Text) (known : List Known)
      → load p (sorted_observations observations) [] ≡ ok (final, known)
      → ((r : CorrelationResult) × (correlate p observations ≡ ok r) × IsRun observations known r)
        ⊎ ((correlate p observations ≡ err not_encodable) × Unencodable p known)
  unfolding correlate
  run_lem observations final known h =
      let loaded =
        load-IsLoaded p (sorted_observations observations) [] final known empty-Identity h in
      let (merged, done, (forest, kept, added)) =
        merge_all_lem (sorted_observations observations) final known loaded in
      let grouped_at = group_known_lem known merged.parent [] (root_of known) forest in
      let groups = collect_into [] (rooted (root_of known) known) in
      elim (build_devices_lem p merged.decisions groups
        (λ g among. group_member g.0 g.1 (rooted (root_of known) known) among)) [
          | inr (failed, g, there, (k, among, seed, source, bad)) ↦ inr (
            rw (h, done, grouped_at, failed) refl,
            (k, rooted_member (root_of known) known g k there among, seed, source, bad),
          )
          | inl (found, built, are, count) ↦ inl (
            _,
            rw (h, done, grouped_at, built) refl,
            record {
              parents = final;
              loaded = loaded;
              found = found;
              built = are;
              count = count;
              devices_at = refl;
              decisions_at = ap (sort_by decision_sort_key) added;
              conflicts_at = refl;
            },
          )
        ]
