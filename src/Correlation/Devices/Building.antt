-- ===== src/Correlation/Devices/Building.antt =====
-- The groups and the devices built from them: each succeeds once the observations are loaded.
use mathlib.Core.Path.{ap₂, subst}
use codexnet.Correlation.Devices.{
  device_of, take, codes, stable_keys, append_to, flat_map, some, find, sort_by, sorted_set,
  OrderedDict, map, List, Text, group_known, seed_of, canonical_key_of, build_device, build_devices,
}
use codexnet.Prelude.{
  take, suc, ◌++◌, ap, sym, flat_map, some, length, refl, ◌∙◌, map, ◌≡◌, List, inl, inr, [], ◌∷◌,
  ◌⊎◌, false, Bool-cases,
}
use codexnet.Prelude.Text.{codes, Text}
use codexnet.OrderedDict.Groups.{append_to, collect_into}
use codexnet.Prelude.Sorting.{Among-sort_by, Among, Among-flat_map, Among-sorted_set, Among-map}
use codexnet.Correlation.UnionFind.{find}
use codexnet.Correlation.Identity.{not_encodable, is_encodable, Platform}
use codexnet.Correlation.Evidence.{IdentityEvidence, CorrelationDecision, CanonicalDevice}
use codexnet.Prelude.Result.{err, ok}
use codexnet.OrderedDict.Grouped.{group_lem, Among-values_of}
use codexnet.Prelude.Order.{sort_by, sorted_set, nat_order, list_order}
use codexnet.OrderedDict.{OrderedDict}
use codexnet.Prelude.Keys.{nat_eq, list_eq}
use codexnet.Correlation.UnionFind.Forest.{IsForest}
use codexnet.Correlation.UnionFind.Find.{find_lem}
use codexnet.Correlation.Merge.{Known, id_of}

-- The pairs that `groups` gathers.
abbrev pub rooted : (Text → Text) → List Known → List (Text × Known)
rooted rep ks = map (λ k. (rep (id_of k), k)) ks

group_step :
    (k : Known) (ks : List Known) (parent' d : OrderedDict Text Text)
    (groups : OrderedDict Text (List Known)) {root : Text}
    → find parent' (id_of k) ≡ some (root, d)
    → group_known (k ∷ ks) parent' groups ≡ group_known ks d (append_to root k groups)
unfolding group_known
group_step k ks parent' d groups found = rw (found, group_known) refl

pub group_known_lem :
    (ks : List Known) (parent' : OrderedDict Text Text) (groups : OrderedDict Text (List Known))
    (rep : Text → Text)
    → IsForest parent' rep
    → group_known ks parent' groups ≡ ok (collect_into groups (rooted rep ks))
unfolding group_known collect_into
group_known_lem [] parent' groups rep forest = refl
group_known_lem (k ∷ ks) parent' groups rep forest =
    let (d, found, forest', kept) = find_lem parent' rep (id_of k) forest in
    group_step k ks parent' d groups found
    ∙ group_known_lem ks d (append_to (rep (id_of k)) k groups) rep forest'

-- The members of the groups are the observations that were loaded.
pub rooted_member :
    (rep : Text → Text) (ks : List Known) (g : Text × List Known) (k : Known)
    → Among g (collect_into [] (rooted rep ks))
    → Among k g.1
    → Among k ks
rooted_member rep ks (root, group) k h among =
    let at =
      (Among-values_of root k (rooted rep ks)).0
        (subst (Among k) (group_lem root group (rooted rep ks) h) among) in
    let (j, there, one) = (Among-map (λ u. (rep (id_of u), u)) (root, k) ks).0 at in
    subst (λ u. Among u ks) (sym (ap (λ q. q.1) one)) there

module _ (p : Platform) where
  -- What the key of a device can be a digest of.
  abbrev pub IsSeed : Text → Text → List IdentityEvidence → Type 0
  IsSeed seed id items = Among seed (stable_keys p items) ⊎ (seed ≡ codes "observation:" ++ id)

  -- One of the observations gives a text that has no UTF-8 form.
  abbrev pub Unencodable : List Known → Type 0
  Unencodable ks =
      (k : Known) × Among k ks
      × (seed : Text) × IsSeed seed (id_of k) k.items
      × (is_encodable seed ≡ false)

  seed_known :
      (keys' : List Text) (members : List Known)
      → (k : Known) × Among k members
      → (seed : Text) × (seed_of p keys' members ≡ ok seed)
        × (Among seed keys'
            ⊎ ((k : Known) × Among k members × (seed ≡ codes "observation:" ++ id_of k)))
  seed_known (key ∷ rest) members some_known = (key, refl, inl (inl refl))
  seed_known [] [] some_known = absurd some_known.1
  seed_known [] (k ∷ ks) some_known = (_, refl, inr (k, inl refl, refl))

  key_source :
      (members : List Known) (seed : Text)
      → Among seed (sorted_set (flat_map (λ k. stable_keys p k.items) members))
        ⊎ ((k : Known) × Among k members × (seed ≡ codes "observation:" ++ id_of k))
      → (k : Known) × Among k members × IsSeed seed (id_of k) k.items
  key_source members seed (inr (k, among, named)) = (k, among, inr named)
  key_source members seed (inl h) =
      let all = flat_map (λ k. stable_keys p k.items) members in
      let (k, among, at) =
        (Among-flat_map (λ k. stable_keys p k.items) seed members).0
          ((Among-sorted_set seed all).0 h) in
      (k, among, inl at)

  key_known :
      (members : List Known)
      → (k : Known) × Among k members
      → ((key : Text) × (canonical_key_of p members ≡ ok key))
        ⊎ ((canonical_key_of p members ≡ err not_encodable) × Unencodable members)
  unfolding canonical_key_of
  key_known members some_known =
      let keys' = sorted_set (flat_map (λ k. stable_keys p k.items) members) in
      let (seed, at, from) = seed_known keys' members some_known in
      let (k, among, source) = key_source members seed from in
      elim (Bool-cases (is_encodable seed)) [
        | inl fine ↦ inl (codes "device-" ++ take 20 (p.sha256_hex seed), rw (at, fine) refl)
        | inr bad ↦ inr (rw (at, bad) refl, (k, among, seed, source, bad))
      ]

  -- What a device says of its group.
  abbrev pub Describes : List Known → CanonicalDevice → Type 0
  Describes group device =
      (device.observation_ids ≡ map id_of (sort_by id_of group))
      × (canonical_key_of p (sort_by id_of group) ≡ ok device.canonical_key)

  build_device_lem :
      (decisions' : List CorrelationDecision) (group : List Known)
      → (k : Known) × Among k group
      → ((device : CanonicalDevice) × (build_device p decisions' group ≡ ok device)
          × Describes group device)
        ⊎ ((build_device p decisions' group ≡ err not_encodable) × Unencodable group)
  unfolding build_device device_of
  build_device_lem decisions' group (k, among) =
      let members = sort_by id_of group in
      elim (key_known members (k, (Among-sort_by id_of k group).1 among)) [
        | inl (key, at) ↦
            inl (device_of p decisions' members key, rw (at, build_device) refl, (refl, at))
        | inr (failed, (j, there, seed, source, bad)) ↦ inr (
          rw (failed, build_device) refl,
          (j, (Among-sort_by id_of j group).0 there, seed, source, bad),
        )
      ]

  abbrev pub Group : Type 0
  Group = Text × List Known

  -- Each device is of a group, and each group has its device.
  pub record AreOf (groups : List Group) (found : List CanonicalDevice) : Type 0 where
    pub of_group :
        (device : CanonicalDevice)
        → Among device found
        → (g : Group) × Among g groups × Describes g.1 device
    pub has_device :
        (g : Group)
        → Among g groups
        → (device : CanonicalDevice) × Among device found × Describes g.1 device
    pub listed :
        flat_map (λ d. d.observation_ids) found
        ≡ flat_map (λ g. map id_of (sort_by id_of g.1)) groups

  -- All devices are built, or the key of one of the groups fails.
  abbrev pub BuildOutcome : List CorrelationDecision → List Group → Type 0
  BuildOutcome decisions' groups =
      ((found : List CanonicalDevice) × (build_devices p decisions' groups ≡ ok found)
        × AreOf groups found
        × (length found ≡ length groups))
      ⊎ ((build_devices p decisions' groups ≡ err not_encodable)
          × (g : Group) × Among g groups
          × Unencodable g.1)

  -- One more device in front of the others.
  AreOf-cons :
      (root : Text) (group : List Known) (groups : List Group) (device : CanonicalDevice)
      (rest : List CanonicalDevice)
      → Describes group device
      → AreOf groups rest
      → AreOf ((root, group) ∷ groups) (device ∷ rest)
  AreOf-cons root group groups device rest describes are = record {
    of_group = λ d h. elim h [
      | inl here ↦ ((root, group), inl refl, subst (Describes group) (sym here) describes)
      | inr there ↦ let (g, among, of) = are.of_group d there in (g, inr among, of)
    ];
    has_device = λ g h. elim h [
      | inl here ↦ (device, inl refl, subst (λ u. Describes u.1 device) (sym here) describes)
      | inr there ↦ let (d, among, of) = are.has_device g there in (d, inr among, of)
    ];
    listed = ap₂ (λ u v. u ++ v) describes.0 are.listed;
  }

  pub build_devices_lem :
      (decisions' : List CorrelationDecision) (groups : List Group)
      → ((g : Group) → Among g groups → (k : Known) × Among k g.1)
      → BuildOutcome decisions' groups
  unfolding build_devices
  build_devices_lem decisions' [] full = inl (
    [],
    refl,
    record { of_group = λ device h. absurd h; has_device = λ g h. absurd h; listed = refl },
    refl,
  )
  build_devices_lem decisions' ((root, group) ∷ groups) full =
      elim (build_device_lem decisions' group (full (root, group) (inl refl))) [
        | inr (failed, why) ↦ inr (rw failed refl, (root, group), inl refl, why)
        | inl (device, built, describes) ↦
            elim (build_devices_lem decisions' groups (λ g h. full g (inr h))) [
              | inr (failed, g, among, why) ↦ inr (rw (built, failed) refl, g, inr among, why)
              | inl (rest, built', are, count) ↦ inl (
                device ∷ rest,
                rw (built, built') refl,
                AreOf-cons root group groups device rest describes are,
                ap suc count,
              )
            ]
      ]
