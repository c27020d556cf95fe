-- ===== src/Correlation/Devices/Partition.antt =====
-- No observation is lost, and none stands in two devices.
use codexnet.Prelude.{refl, sym, arith, ◌∙◌, ap, map, flat_map, Bool, ◌≡◌, List, [], ◌∷◌}
use codexnet.Prelude.Sorting.{
  count_if-sort_by, count_if-map, count_if-append, count_if-flat_map-sort_by, count_if,
}
use codexnet.Correlation.Devices.{sort_by, map, flat_map, Bool, List, Text, correlate}
use codexnet.Prelude.Order.{sort_by, nat_order, list_order}
use codexnet.OrderedDict.Groups.{collect_into}
use codexnet.Prelude.Text.{Text}
use codexnet.Prelude.Keys.{nat_eq, list_eq}
use codexnet.Prelude.Result.{ok}
use codexnet.OrderedDict.Grouped.{count_if-grouped, grouped_values}
use codexnet.Correlation.Identity.{Platform}
use codexnet.Correlation.Evidence.{DeviceObservation, CorrelationResult}
use codexnet.Correlation.Merge.{Known, id_of}
use codexnet.Correlation.Devices.Building.{rooted}
use codexnet.Correlation.Devices.Runs.{root_of}
use codexnet.Correlation.Devices.Components.{correlate-IsRun, ids_of}

count_of_groups :
    (q : Text → Bool) (groups : List (Text × List Known))
    → count_if q (flat_map (λ g. map id_of (sort_by id_of g.1)) groups)
      ≡ count_if (λ k. q (id_of k)) (grouped_values groups)
count_of_groups q [] = refl
count_of_groups q ((root, group) ∷ groups) = omega (
  arith,
  count_of_groups q groups,
  count_if-append q (map id_of (sort_by id_of group))
      (flat_map (λ g. map id_of (sort_by id_of g.1)) groups),
  count_if-append (λ k. q (id_of k)) group (grouped_values groups),
  count_if-map id_of q (sort_by id_of group),
  count_if-sort_by id_of (λ k. q (id_of k)) group,
)

count_of_rooted :
    (rep : Text → Text) (q : Text → Bool) (ks : List Known)
    → count_if (λ u. q (id_of u.1)) (rooted rep ks) ≡ count_if (λ k. q (id_of k)) ks
count_of_rooted rep q ks = count_if-map (λ k. (rep (id_of k), k)) (λ u. q (id_of u.1)) ks

-- The devices together list each observation ID as often as it was given: correlation loses no
-- observation and repeats none.
pub correlate_partitions :
    (p : Platform) (observations : List DeviceObservation) (r : CorrelationResult)
    → correlate p observations ≡ ok r
    → (q : Text → Bool)
    → count_if q (flat_map (λ d. d.observation_ids) r.devices) ≡ count_if q (ids_of observations)
correlate_partitions p observations r h q =
    let (known, run) = correlate-IsRun p observations r h in
    let pairs = rooted (root_of p known) known in
    let groups = collect_into [] pairs in
    ap (λ ds. count_if q (flat_map (λ d. d.observation_ids) ds)) run.devices_at
    ∙ count_if-flat_map-sort_by (λ d. d.canonical_key) (λ d. d.observation_ids) q run.found
    ∙ ap (count_if q) run.built.listed
    ∙ count_of_groups q groups
    ∙ count_if-grouped (λ k. q (id_of k)) pairs
    ∙ count_of_rooted (root_of p known) q known
    ∙ sym (count_if-map (λ k. k.observation) (λ o. q o.observation_id) known)
    ∙ ap (count_if (λ o. q o.observation_id)) run.loaded.observed
    ∙ count_if-sort_by (λ o. o.observation_id) (λ o. q o.observation_id) observations
    ∙ sym (count_if-map (λ o. o.observation_id) q observations)
