-- ===== src/Correlation/Conflicts/Disclosure.antt =====
-- A host name or an address on several devices is disclosed, and only such are.
use codexnet.Correlation.Conflicts.Uses.{HasUse-Use, Reused_iff, Use-HasUse, HasUse, Reused}
use codexnet.Correlation.Conflicts.{
  conflict_sort_key, all_conflicts, collect_into, flat_map, device_conflicts, find_conflicts,
  sort_by, serial_values, FactEvidence, sorted_set, Platform, codes, field_conflicts,
  serial_conflicts, map, if◌then◌else◌, length, ltb, Text, List, Use, UseKey, uses_of, using_keys,
  reused_conflict, reused_conflicts,
}
use codexnet.OrderedDict.Grouped.{Among-values_of, group_lem, grouped}
use codexnet.Prelude.{
  ◌⊎◌, flat_map, ◌++◌, map, ◌∙◌, if◌then◌else◌, Bool-cases, length, sym, ap, arith, ltb, refl, ◌↔◌,
  ◌≡◌, ◌≢◌, List, inl, inr, true, [], ◌∷◌,
}
use codexnet.Prelude.Sorting.{
  Among-append, Among-sort_by, Among-sorted_set, Among-map, Among-flat_map, Among,
}
use codexnet.OrderedDict.Groups.{collect_into}
use codexnet.Prelude.Order.{sort_by, sorted_set, nat_order, list_order, pair_order}
use mathlib.Core.Path.{ap₂, subst}
use codexnet.Correlation.Evidence.{FactEvidence, CanonicalDevice, CorrelationConflict}
use codexnet.Correlation.Identity.{Platform}
use codexnet.Prelude.Text.{codes, Text}
use codexnet.Prelude.Keys.{nat_eq, list_eq, pair_eq}

Among-reused_conflicts :
    (c : CorrelationConflict) (entries : List (UseKey × List Use))
    → Among c (reused_conflicts entries) ↔ (
        (g : UseKey × List Use) × Among g entries
        × (ltb 1 (length (using_keys g.1)) ≡ true)
        × (c ≡ reused_conflict g.0 g.1))
unfolding reused_conflicts
Among-reused_conflicts c [] = (λ h. absurd h, λ h. absurd h.1)
Among-reused_conflicts c ((use_key, uses) ∷ entries) =
    let rest = Among-reused_conflicts c entries in
    elim (Bool-cases (ltb 1 (length (using_keys uses)))) [
      | inl more ↦
          rw (more, if◌then◌else◌)
            (
              λ h. elim h [
                | inl here ↦ ((use_key, uses), inl refl, more, here)
                | inr there ↦ let (g, among, many, at) = rest.0 there in (g, inr among, many, at)
              ],
              λ (g, among, many, at). elim among [
                | inl here ↦ inl (at ∙ ap (λ v. reused_conflict v.0 v.1) here)
                | inr there ↦ inr (rest.1 (g, there, many, at))
              ],
            )
      | inr few ↦
          rw (few, if◌then◌else◌)
            (
              λ h. let (g, among, many, at) = rest.0 h in (g, inr among, many, at),
              λ (g, among, many, at). elim among [
                | inl here ↦ absurd (
                    ground
                      (arith, few, subst (λ v. ltb 1 (length (using_keys v.1)) ≡ true) here many))
                | inr there ↦ rest.1 (g, there, many, at)
              ],
            )
    ]

append_cancel : (xs ys zs : Text) → xs ++ ys ≡ xs ++ zs → ys ≡ zs
append_cancel [] ys zs h = h
append_cancel (x ∷ xs) ys zs h = append_cancel xs ys zs (cc)

serial_kind :
    (c : CorrelationConflict) (d : CanonicalDevice)
    → Among c (serial_conflicts d)
    → c.conflict_kind ≡ codes "conflicting_serial"
unfolding serial_conflicts
serial_kind c d h = elim (Bool-cases (ltb 1 (length (sorted_set (serial_values d.identifiers))))) [
  | inl more ↦ elim (rw (more, if◌then◌else◌) at h) [
    | inl here ↦ ap (λ v. v.conflict_kind) here
    | inr there ↦ absurd there
  ]
  | inr few ↦ absurd (rw (few, if◌then◌else◌) at h)
]

field_kind :
    (p : Platform) (c : CorrelationConflict) (d : CanonicalDevice)
    (entries : List (Text × List FactEvidence))
    → Among c (field_conflicts p d entries)
    → c.conflict_kind ≡ codes "source_disagreement"
unfolding field_conflicts
field_kind p c d [] h = absurd h
field_kind p c d ((field', facts') ∷ entries) h = ground (arith, field_kind p c d entries)

-- The key of a disclosed reuse.
key_of_reuse :
    (kt v kt' v' : Text)
    → codes "reused_" ++ kt ≡ codes "reused_" ++ kt'
    → kt ++ b':' ∷ v ≡ kt' ++ b':' ∷ v'
    → ◌≡◌ {A = UseKey} (kt, v) (kt', v')
key_of_reuse kt v kt' v' h k =
    let one = append_cancel (codes "reused_") kt kt' h in
    let rest =
      append_cancel kt (b':' ∷ v) (b':' ∷ v')
        (subst (λ u. kt ++ b':' ∷ v ≡ u ++ b':' ∷ v') (sym one) k) in
    let same : v ≡ v' = cc in ap₂ (λ a b. (a, b)) one same

module _ (p : Platform) (devices : List CanonicalDevice) where
  abbrev groups : List (UseKey × List Use)
  groups = sort_by (λ e. e.0) (collect_into [] (uses_of devices))

  Among-groups :
      (g : UseKey × List Use)
      → Among g groups
      → (u : Use) → Among u g.1 ↔ Among (g.0, u) (uses_of devices)
  Among-groups (use_key, uses) h u =
      let made =
        (Among-sort_by (λ e. e.0) (use_key, uses) (collect_into [] (uses_of devices))).0 h in
      subst (λ vs. Among u vs ↔ Among (use_key, u) (uses_of devices))
        (sym (group_lem use_key uses (uses_of devices) made))
        (Among-values_of use_key u (uses_of devices))

  reused_of_device :
      (c : CorrelationConflict) (kt : Text)
      → Among c (flat_map (device_conflicts p) devices)
      → c.conflict_kind ≢ codes "reused_" ++ kt
  unfolding device_conflicts
  reused_of_device c kt h at =
      let (d, among, inside) = (Among-flat_map (device_conflicts p) c devices).0 h in
      elim ((Among-append c (serial_conflicts d) _).0 inside) [
        | inl serial_one ↦ absurd (ground (arith, serial_kind c d serial_one))
        | inr field_one ↦ absurd (ground (arith, field_kind p c d _ field_one))
      ]

  Among-find_conflicts :
      (c : CorrelationConflict)
      → Among c (find_conflicts p devices)
        ↔ (Among c (reused_conflicts groups) ⊎ Among c (flat_map (device_conflicts p) devices))
  unfolding find_conflicts all_conflicts
  Among-find_conflicts c =
      let by_key = Among-sort_by conflict_sort_key c (all_conflicts p devices) in
      let parts =
        Among-append c (reused_conflicts groups) (flat_map (device_conflicts p) devices) in
      (λ h. parts.0 (by_key.0 h), λ h. by_key.1 (parts.1 h))

  -- The conflict that discloses a reuse, with the keys of all devices that share the value.
  abbrev pub Discloses : UseKey → CorrelationConflict → Type 0
  Discloses use_key c =
      Among c (find_conflicts p devices)
      × (c.conflict_kind ≡ codes "reused_" ++ use_key.0)
      × (c.key ≡ use_key.0 ++ b':' ∷ use_key.1)
      × ((key' : Text) → Among key' c.canonical_keys ↔ HasUse devices use_key key')

  using_keys_lem :
      (use_key : UseKey) (uses : List Use)
      → ((u : Use) → Among u uses ↔ Among (use_key, u) (uses_of devices))
      → (key' : Text) → Among key' (using_keys uses) ↔ HasUse devices use_key key'
  using_keys_lem use_key uses at key' =
      let set = Among-sorted_set key' (map (λ c. c.0.canonical_key) uses) in
      let listed = Among-map {A = Use} (λ c. c.0.canonical_key) key' uses in
      (
        λ h.
            let (u, among, named) = listed.0 (set.0 h) in
            subst (HasUse devices use_key) (sym named)
              (Use-HasUse devices use_key u ((at u).0 among)),
        λ h.
            let (u, among, named) = HasUse-Use devices use_key key' h in
            set.1 (listed.1 (u, (at u).1 among, sym named)),
      )

  -- A host name or an IPv4 address stands on devices with two different canonical keys exactly if
  -- the conflicts disclose its reuse, under a kind and a key that name it; the conflict then lists
  -- the canonical keys of all devices that have it, and no others.
  pub reuse_disclosed_iff :
      (use_key : UseKey)
      → ((c : CorrelationConflict) × Discloses use_key c) ↔ Reused devices use_key
  reuse_disclosed_iff use_key = (
    λ (c, (among, kind_at, key_at, listed)). elim ((Among-find_conflicts c).0 among) [
      | inr other ↦ absurd (reused_of_device c use_key.0 other kind_at)
      | inl reuse ↦
          let (g, there, many, at) = (Among-reused_conflicts c groups).0 reuse in
          let one : g.0 ≡ use_key =
            key_of_reuse g.0.0 g.0.1 use_key.0 use_key.1
              (ap (λ v. v.conflict_kind) (sym at) ∙ kind_at) (ap (λ v. v.key) (sym at) ∙ key_at) in
          subst (Reused devices) one ((Reused_iff devices g.0 g.1 (Among-groups g there)).0 many)
    ],
    λ reused.
        let (u, inside, named) = HasUse-Use devices use_key reused.0 reused.2 in
        let (uses, made, member) = grouped use_key u (uses_of devices) inside in
        let there =
          (Among-sort_by (λ e. e.0) (use_key, uses) (collect_into [] (uses_of devices))).1 made in
        let at = Among-groups (use_key, uses) there in
        (
          reused_conflict use_key uses,
          (
            (Among-find_conflicts (reused_conflict use_key uses)).1 (
                inl (
                  (Among-reused_conflicts (reused_conflict use_key uses) groups).1
                    ((use_key, uses), there, (Reused_iff devices use_key uses at).1 reused, refl))),
            refl,
            refl,
            using_keys_lem use_key uses at,
          ),
        ),
  )
