-- ===== src/Correlation/Merge/Identified.antt =====
-- The claims of the index in terms of the observations.
use codexnet.Prelude.{◌++◌, ap, arith, refl, ◌∙◌, flat_map, sym, ◌↔◌, ◌≡◌, List, inr, true, [], ◌∷◌}
use codexnet.Correlation.Merge.{
  is_key, OrderedDict, List, Text, Known, Claim, id_of, all_identifiers, is_stable, stable_claims,
  claims_of,
}
use codexnet.OrderedDict.{is_key, OrderedDict}
use codexnet.Prelude.Sorting.{Among-flat_map, Among-map, Among}
use mathlib.Core.Path.{subst}
use codexnet.Prelude.Text.{Text}
use codexnet.Prelude.Keys.{nat_eq, list_eq}
use codexnet.Prelude.Order.{nat_order, list_order}
use codexnet.Prelude.Result.{ok, ok-injective}
use codexnet.Correlation.Identity.{Platform}
use codexnet.Correlation.Evidence.{DeviceObservation, IdentityEvidence, evidence_key_of}
use codexnet.Correlation.Merge.Sharing.{Shares}
use codexnet.Correlation.Merge.Loading.{IsLoaded}

module _ (p : Platform) where
  -- An observation of this ID has a stable identifier of this key and a sufficient confidence.
  abbrev pub Identifies : List DeviceObservation → Text → Text → Type 0
  Identifies os id key =
      (o : DeviceObservation) × (items : List IdentityEvidence) × (item : IdentityEvidence) × Among
        o os
      × (o.observation_id ≡ id)
      × (all_identifiers p o ≡ ok items)
      × Among item items
      × (is_stable p item ≡ true)
      × (evidence_key_of item ≡ key)

  -- An observation of this ID has this evidence.
  abbrev pub Carries : List DeviceObservation → Text → IdentityEvidence → Type 0
  Carries os id item =
      (o : DeviceObservation) × (items : List IdentityEvidence) × Among o os
      × (o.observation_id ≡ id)
      × (all_identifiers p o ≡ ok items)
      × Among item items

  -- Two observations have a stable identifier in common.
  abbrev pub Common : List DeviceObservation → Text → Text → Type 0
  Common os a b = (key : Text) × Identifies os a key × Identifies os b key

  Among-stable_claims :
      (id key : Text) (c : Claim) (items : List IdentityEvidence)
      → Among (key, c) (stable_claims p id items)
        ↔ ((c.0 ≡ id) × Among c.1 items × (is_stable p c.1 ≡ true) × (evidence_key_of c.1 ≡ key))
  unfolding stable_claims
  Among-stable_claims id key (i, item) [] = ground arith
  Among-stable_claims id key (i, item) (x ∷ items) =
      ground (arith, Among-stable_claims id key (i, item) items)

  claims_of_lem :
      (known : List Known)
      → claims_of p known ≡ flat_map (λ k. stable_claims p (id_of k) k.items) known
  unfolding claims_of
  claims_of_lem [] = refl
  claims_of_lem (k ∷ known) =
      ap (λ rest. stable_claims p (id_of k) k.items ++ rest) (claims_of_lem known)

  module _ (os : List DeviceObservation) (start final : OrderedDict Text Text) (known : List Known)
      (loaded : IsLoaded p os start final known) where
    known-Among : (k : Known) → Among k known → Among k.observation os
    known-Among k h =
        subst (Among k.observation) loaded.observed
          ((Among-map (λ j. j.observation) k.observation known).1 (k, h, refl))

    Among-known :
        (o : DeviceObservation) → Among o os → (k : Known) × Among k known × (o ≡ k.observation)
    Among-known o h =
        (Among-map (λ j. j.observation) o known).0 (subst (Among o) (sym loaded.observed) h)

    pub Claimed-Carries :
        (key : Text) (c : Claim)
        → Among (key, c) (claims_of p known)
        → Carries os c.0 c.1 × (is_stable p c.1 ≡ true) × (evidence_key_of c.1 ≡ key)
    Claimed-Carries key c h =
        let (k, among, at) =
          (Among-flat_map (λ k. stable_claims p (id_of k) k.items) (key, c) known).0
            (subst (Among (key, c)) (claims_of_lem known) h) in
        let (id, item, stable, named) = (Among-stable_claims (id_of k) key c k.items).0 at in
        (
          (k.observation, k.items, known-Among k among, sym id, loaded.identified k among, item),
          stable,
          named,
        )

    Claimed-Identifies :
        (key : Text) (c : Claim) → Among (key, c) (claims_of p known) → Identifies os c.0 key
    Claimed-Identifies key c h =
        let ((o, items, among, named, all, inside), stable, at) = Claimed-Carries key c h in
        (o, items, c.1, among, named, all, inside, stable, at)

    Identifies-Claimed :
        (id key : Text)
        → Identifies os id key
        → (c : Claim) × Among (key, c) (claims_of p known) × (c.0 ≡ id)
    Identifies-Claimed id key (o, items, item, among, named, all, inside, stable, at) =
        let (k, there, one) = Among-known o among in
        let same : k.items ≡ items =
          ok-injective k.items items
            (sym (loaded.identified k there) ∙ ap (all_identifiers p) (sym one) ∙ all) in
        (
          (id_of k, item),
          subst (Among (key, (id_of k, item))) (sym (claims_of_lem known)) (
              (Among-flat_map (λ j. stable_claims p (id_of j) j.items) _ known).1 (
                k,
                there,
                (Among-stable_claims (id_of k) key (id_of k, item) k.items).1
                    (refl, subst (Among item) (sym same) inside, stable, at),
              )),
          ap (λ u. u.observation_id) (sym one) ∙ named,
        )

    pub Shares-iff : (a b : Text) → Shares (claims_of p known) a b ↔ Common os a b
    Shares-iff a b = (
      λ (key, c, d, hc, hd, left, right). (
        key,
        subst (λ u. Identifies os u key) left (Claimed-Identifies key c hc),
        subst (λ u. Identifies os u key) right (Claimed-Identifies key d hd),
      ),
      λ (key, left, right).
          let (c, hc, at_c) = Identifies-Claimed a key left in
          let (d, hd, at_d) = Identifies-Claimed b key right in (key, c, d, hc, hd, at_c, at_d),
    )

    -- Only observations that were loaded are claimed.
    pub claimed_is_key :
        (key : Text) (c : Claim) → Among (key, c) (claims_of p known) → is_key c.0 final ≡ true
    claimed_is_key key c h =
        let found = Claimed-Identifies key c h in
        (loaded.key_iff c.0).1
          (inr ((Among-map (λ u. u.observation_id) c.0 os).1 (found.0, found.3, sym found.4)))
