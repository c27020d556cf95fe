-- ===== src/Correlation/Conflicts/Uses.antt =====
-- The entries of `reusable` in terms of the devices.
use codexnet.Correlation.Conflicts.{
  map, length, ltb, Text, List, is_reusable, Use, UseKey, device_uses, uses_of, using_keys,
}
use codexnet.Prelude.{map, length, sym, ap, arith, ltb, refl, ◌↔◌, ◌≡◌, ◌≢◌, List, true, [], ◌∷◌}
use codexnet.Prelude.Sorting.{sorted_set-two_iff, Among-map, Among-flat_map, Among}
use codexnet.Prelude.Order.{nat_order, list_order, pair_order}
use mathlib.Core.Path.{subst}
use codexnet.Correlation.Evidence.{IdentityEvidence, CanonicalDevice}
use codexnet.Correlation.Identity.{kind_value}
use codexnet.Prelude.Text.{Text}
use codexnet.Prelude.Keys.{nat_eq, list_eq, pair_eq}

-- A device of this canonical key has a host name or an address, as the kind says, of this value.
abbrev pub HasUse : List CanonicalDevice → UseKey → Text → Type 0
HasUse devices use_key key' =
    (d : CanonicalDevice) × (item : IdentityEvidence) × Among d devices
    × Among item d.identifiers
    × (is_reusable item.kind ≡ true)
    × ((kind_value item.kind, item.value) ≡ use_key)
    × (d.canonical_key ≡ key')

Among-device_uses :
    (device : CanonicalDevice) (use_key : UseKey) (u : Use) (items : List IdentityEvidence)
    → Among (use_key, u) (device_uses device items) ↔ (
        (u.0 ≡ device)
        × Among u.1 items
        × (is_reusable u.1.kind ≡ true)
        × ((kind_value u.1.kind, u.1.value) ≡ use_key))
unfolding device_uses
Among-device_uses device (kind', value') (d, item) [] = ground arith
Among-device_uses device (kind', value') (d, item) (x ∷ items) =
    ground (arith, Among-device_uses device (kind', value') (d, item) items)

module _ (devices : List CanonicalDevice) (use_key : UseKey) where
  pub Use-HasUse :
      (u : Use) → Among (use_key, u) (uses_of devices) → HasUse devices use_key u.0.canonical_key
  unfolding uses_of
  Use-HasUse u h =
      let (d, among, at) =
        (Among-flat_map (λ d. device_uses d d.identifiers) (use_key, u) devices).0 h in
      let (one, item, reusable, named) = (Among-device_uses d use_key u d.identifiers).0 at in
      (d, u.1, among, item, reusable, named, ap (λ v. v.canonical_key) (sym one))

  pub HasUse-Use :
      (key' : Text)
      → HasUse devices use_key key'
      → (u : Use) × Among (use_key, u) (uses_of devices) × (u.0.canonical_key ≡ key')
  unfolding uses_of
  HasUse-Use key' (d, item, among, inside, reusable, named, at) = (
    (d, item),
    (Among-flat_map (λ v. device_uses v v.identifiers) (use_key, (d, item)) devices).1 (
      d,
      among,
      (Among-device_uses d use_key (d, item) d.identifiers).1 (refl, inside, reusable, named),
    ),
    at,
  )

  -- Two devices of different canonical keys use it.
  abbrev pub Reused : Type 0
  Reused = (a : Text) × (b : Text) × HasUse devices use_key a × HasUse devices use_key b × (a ≢ b)

  pub Reused_iff :
      (uses : List Use)
      → ((u : Use) → Among u uses ↔ Among (use_key, u) (uses_of devices))
      → (ltb 1 (length (using_keys uses)) ≡ true) ↔ Reused
  Reused_iff uses at =
      let by_key = λ (a : Text). Among-map {A = Use} (λ c. c.0.canonical_key) a uses in
      (
        λ h.
            let (a, b, ha, hb, d) = (sorted_set-two_iff (map (λ c. c.0.canonical_key) uses)).0 h in
            let (u, inside, named) = (by_key a).0 ha in
            let (v, inside', named') = (by_key b).0 hb in
            (
              a,
              b,
              subst (HasUse devices use_key) (sym named) (Use-HasUse u ((at u).0 inside)),
              subst (HasUse devices use_key) (sym named') (Use-HasUse v ((at v).0 inside')),
              d,
            ),
        λ (a, b, ha, hb, d).
            let (u, inside, named) = HasUse-Use a ha in
            let (v, inside', named') = HasUse-Use b hb in
            (sorted_set-two_iff (map (λ c. c.0.canonical_key) uses)).1 (
              a,
              b,
              (by_key a).1 (u, (at u).1 inside, sym named),
              (by_key b).1 (v, (at v).1 inside', sym named'),
              d,
            ),
      )
