-- ===== src/Correlation/Devices/Components.antt =====
-- The devices are the connected components of the observations under common stable identifiers.
use codexnet.Prelude.{refl, ap, ◌∙◌, sym, arith, map, ◌↔◌, ◌≡◌, List, inl, inr, []}
use codexnet.Correlation.Devices.{sort_by, map, Text, List, correlate}
use codexnet.Prelude.Order.{sort_by, nat_order, list_order}
use codexnet.OrderedDict.Groups.{collect_into}
use mathlib.Core.Path.{subst₂, subst}
use codexnet.Prelude.Sorting.{Among-map, Among-sort_by, Among}
use codexnet.Prelude.Text.{Text}
use codexnet.Prelude.Keys.{nat_eq, list_eq}
use codexnet.Prelude.Result.{ok, Result-cases, ok-injective}
use codexnet.OrderedDict.Grouped.{group_lem, grouped, Among-values_of}
use codexnet.Correlation.UnionFind.Linked.{Linked, Linked-map}
use codexnet.Correlation.Identity.{Platform}
use codexnet.Correlation.Evidence.{DeviceObservation, CanonicalDevice, CorrelationResult}
use codexnet.Correlation.Merge.{Known, id_of, load, claims_of}
use codexnet.Correlation.Merge.Sharing.{classes_lem}
use codexnet.Correlation.Merge.Identified.{Common, Identifies, Shares-iff}
use codexnet.Correlation.Devices.Building.{rooted, Describes}
use codexnet.Correlation.Devices.Runs.{sorted_observations, root_of, IsRun, run_lem}

abbrev pub ids_of : List DeviceObservation → List Text
ids_of os = map (λ o. o.observation_id) os

Common-resort :
    (p : Platform) (os others : List DeviceObservation)
    → ((o : DeviceObservation) → Among o os → Among o others)
    → (a b : Text) → Common p os a b
    → Common p others a b
Common-resort p os others keep a b (key, left, right) =
    let move : (id : Text) → Identifies p os id key → Identifies p others id key =
      λ id (o, items, item, among, named, all, inside, stable, at).
        (o, items, item, keep o among, named, all, inside, stable, at) in
    (key, move a left, move b right)

module _ (p : Platform) (observations : List DeviceObservation) (r : CorrelationResult) where
  pub correlate-IsRun :
      correlate p observations ≡ ok r → (known : List Known) × IsRun p observations known r
  unfolding correlate
  correlate-IsRun h = elim (Result-cases (load p (sorted_observations observations) [])) [
    | inr (e, bad) ↦ absurd (ground arith)
    | inl ((final, known), good) ↦ elim (run_lem p observations final known good) [
      | inl (r', done, run) ↦
          (known, subst (IsRun p observations known) (ok-injective r' r (sym done ∙ h)) run)
      | inr (failed, why) ↦ cc (sym failed ∙ h)
    ]
  ]

  module _ (known : List Known) (run : IsRun p observations known r) where
    abbrev sorted : List DeviceObservation
    sorted = sorted_observations observations

    known_id :
        (id : Text) → Among id (ids_of observations) → (k : Known) × Among k known × (id ≡ id_of k)
    known_id id h =
        let (o, among, named) = (Among-map (λ o. o.observation_id) id observations).0 h in
        let there = (Among-sort_by (λ o. o.observation_id) o observations).1 among in
        let (k, at, one) =
          (Among-map (λ k. k.observation) o known).0
            (subst (Among o) (sym run.loaded.observed) there) in
        (k, at, named ∙ ap (λ o. o.observation_id) one)

    abbrev pairs : List (Text × Known)
    pairs = rooted (root_of p known) known

    classes :
        (x y : Text) → (root_of p known x ≡ root_of p known y) ↔ Linked (Common p observations) x y
    classes x y =
        let shares = Shares-iff p sorted [] run.parents known run.loaded in
        let by_id = Among-sort_by (λ o. o.observation_id) in
        let made = classes_lem (claims_of p known) x y in
        (
          λ h.
              Linked-map
                (λ u v k.
                  Common-resort p sorted observations (λ o. (by_id o observations).0) u v
                    ((shares u v).0 k))
                (made.0 h),
          λ h. made.1 (
              Linked-map
                (λ u v k.
                  (shares u v).1
                    (Common-resort p observations sorted (λ o. (by_id o observations).1) u v k))
                h),
        )

    -- The members of a group have its root.
    group_root :
        (g : Text × List Known) (k : Known)
        → Among g (collect_into [] pairs)
        → Among k g.1
        → g.0 ≡ root_of p known (id_of k)
    group_root (root, group) k h among =
        let at =
          (Among-values_of root k pairs).0 (subst (Among k) (group_lem root group pairs h) among) in
        let (j, known_j, one) =
          (Among-map (λ u. (root_of p known (id_of u), u)) (root, k) known).0 at in
        ap (λ q. q.0) one ∙ ap (λ u. root_of p known (id_of u)) (sym (ap (λ q. q.1) one))

    member_root :
        (g : Text × List Known) (device : CanonicalDevice) (id : Text)
        → Among g (collect_into [] pairs)
        → Describes p g.1 device
        → Among id device.observation_ids
        → g.0 ≡ root_of p known id
    member_root (root, group) device id h (listed, keyed) among =
        let (k, inside, named) =
          (Among-map id_of id (sort_by id_of group)).0 (subst (Among id) listed among) in
        group_root (root, group) k h ((Among-sort_by id_of k group).0 inside)
        ∙ ap (root_of p known) (sym named)

    -- The group of an ID's root has a device that lists the ID.
    device_of_root :
        (g : Text × List Known) (device : CanonicalDevice) (k : Known)
        → Among g (collect_into [] pairs)
        → Describes p g.1 device
        → Among k known
        → g.0 ≡ root_of p known (id_of k)
        → Among (id_of k) device.observation_ids
    device_of_root (root, group) device k h (listed, keyed) there at =
        let pair : Among (root, k) pairs =
          (Among-map (λ u. (root_of p known (id_of u), u)) (root, k) known).1
            (k, there, ap (λ u. (u, k)) at) in
        let inside =
          subst (Among k) (sym (group_lem root group pairs h))
            ((Among-values_of root k pairs).1 pair) in
        subst (Among (id_of k)) (sym listed) (
          (Among-map id_of (id_of k) (sort_by id_of group)).1
            (k, (Among-sort_by id_of k group).1 inside, refl))

    found_iff : (d : CanonicalDevice) → Among d r.devices ↔ Among d run.found
    found_iff d =
        let by_key = Among-sort_by (λ u. u.canonical_key) d run.found in
        (
          λ h. by_key.0 (subst (Among d) run.devices_at h),
          λ h. subst (Among d) (sym run.devices_at) (by_key.1 h),
        )

    same_device-Linked :
        (a b : Text) (d : CanonicalDevice)
        → Among d r.devices
        → Among a d.observation_ids
        → Among b d.observation_ids
        → Linked (Common p observations) a b
    same_device-Linked a b d h ha hb =
        let (g, there, describes) = run.built.of_group d ((found_iff d).0 h) in
        (classes a b).0
          (sym (member_root g d a there describes ha) ∙ member_root g d b there describes hb)

    Linked-same_device :
        (a b : Text)
        → Among a (ids_of observations)
        → Among b (ids_of observations)
        → Linked (Common p observations) a b
        → (d : CanonicalDevice) × Among d r.devices
          × Among a d.observation_ids
          × Among b d.observation_ids
    Linked-same_device a b ha hb linked =
        let (k, at_k, named_k) = known_id a ha in
        let (j, at_j, named_j) = known_id b hb in
        let root = root_of p known (id_of k) in
        let (vs, there, inside) =
          grouped root k pairs
            ((Among-map (λ u. (root_of p known (id_of u), u)) (root, k) known).1 (k, at_k, refl)) in
        let (d, made, describes) = run.built.has_device (root, vs) there in
        let one : root ≡ root_of p known (id_of j) =
          subst₂ (λ u v. root_of p known u ≡ root_of p known v) named_k named_j
            ((classes a b).1 linked) in
        (
          d,
          (found_iff d).1 made,
          subst (λ u. Among u d.observation_ids) (sym named_k)
              (device_of_root (root, vs) d k there describes at_k refl),
          subst (λ u. Among u d.observation_ids) (sym named_j)
              (device_of_root (root, vs) d j there describes at_j one),
        )

  -- Two observations stand in one device of the result exactly if a chain of observations leads
  -- from one to the other in which neighbours have a stable identifier of sufficient confidence in
  -- common: nothing else merges observations, and every such identifier does.
  pub same_device_iff :
      correlate p observations ≡ ok r
      → (a b : Text) → Among a (ids_of observations)
      → Among b (ids_of observations)
      → ((d : CanonicalDevice) × Among d r.devices
          × Among a d.observation_ids
          × Among b d.observation_ids)
        ↔ Linked (Common p observations) a b
  same_device_iff h a b ha hb =
      let (known, run) = correlate-IsRun h in
      (
        λ (d, among, in_a, in_b). same_device-Linked known run a b d among in_a in_b,
        Linked-same_device known run a b ha hb,
      )
