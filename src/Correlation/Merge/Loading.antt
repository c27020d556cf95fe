-- ===== src/Correlation/Merge/Loading.antt =====
-- The first loop of `correlate`: IDs that are all different, each its own root, and each
-- observation with its identifiers.
use codexnet.Prelude.{
  ap, map, sym, ◌⊎◌, ◌↔◌, true, refl, arith, ◌≡◌, List, inl, inr, false, [], ◌∷◌,
}
use codexnet.Correlation.UnionFind.Forest.{IsForest, parent_of-put}
use codexnet.OrderedDict.Lookup.{is_key-put}
use codexnet.Prelude.Sorting.{Among}
use mathlib.Core.Path.{subst}
use codexnet.Prelude.Keys.{list_beq_iff, nat_eq, list_eq}
use codexnet.Correlation.Merge.{is_key, put, List, OrderedDict, Text, Known, load, all_identifiers}
use codexnet.OrderedDict.{is_key, lookup, put, OrderedDict}
use codexnet.Correlation.UnionFind.{parent_of}
use codexnet.Prelude.Text.{Text}
use codexnet.Prelude.Order.{nat_order, list_order}
use codexnet.Prelude.Result.{Result-cases, ok, raise_if-eq-ok}
use codexnet.Correlation.Identity.{Platform}
use codexnet.Correlation.Evidence.{DeviceObservation, IdentityEvidence}

abbrev pub Identity : OrderedDict Text Text → Type 0
Identity d = IsForest d (λ x. x)

pub empty-Identity : Identity []
unfolding parent_of lookup is_key
empty-Identity = record {
  within = λ x. refl;
  fixed = λ x h. refl;
  root = λ x. refl;
  ordered = λ x. list_order.lt_irrefl x;
  closed = λ x h. absurd (ground arith);
  owned = λ x h. absurd (ground arith);
}

-- parent[id] = id
pub own_root-Identity :
    (id : Text) (d : OrderedDict Text Text) → Identity d → Identity (put id id d)
own_root-Identity id d forest =
    let parent : (x : Text) → parent_of (put id id d) x ≡ x =
      λ x. ground (arith, parent_of-put id x id d, forest.root x, list_beq_iff id x) in
    record {
      within = parent;
      fixed = λ x h. refl;
      root = parent;
      ordered = λ x. rw (parent x) (list_order.lt_irrefl x);
      closed = λ x h. rw (parent x) h;
      owned = λ x h. h;
    }

module _ (p : Platform) where
  pub load-inv :
      (o : DeviceObservation) (os : List DeviceObservation) (parent' final : OrderedDict Text Text)
      (known : List Known)
      → load p (o ∷ os) parent' ≡ ok (final, known)
      → (is_key o.observation_id parent' ≡ false)
        × (items : List IdentityEvidence) × (rest : List Known) × (all_identifiers p o ≡ ok items)
        × (load p os (put o.observation_id o.observation_id parent') ≡ ok (final, rest))
        × (known ≡ record { observation = o; items = items } ∷ rest)
  unfolding load
  load-inv o os parent' final known h =
      let id = o.observation_id in
      let (fresh, h1) = raise_if-eq-ok (is_key id parent') _ _ h in
      elim (Result-cases (all_identifiers p o)) [
        | inr (e, bad) ↦ absurd (ground arith)
        | inl (items, good) ↦ elim (Result-cases (load p os (put id id parent'))) [
          | inr (e, bad) ↦ absurd (ground arith)
          | inl ((final', rest), done) ↦ (fresh, items, rest, good, ground arith, ground arith)
        ]
      ]

  -- What the loop leaves.
  pub record IsLoaded (os : List DeviceObservation) (start final : OrderedDict Text Text)
      (known : List Known) : Type 0 where
    pub forest : Identity final
    pub key_iff :
        (x : Text)
        → (is_key x final ≡ true)
          ↔ ((is_key x start ≡ true) ⊎ Among x (map (λ o. o.observation_id) os))
    pub observed : map (λ k. k.observation) known ≡ os
    pub identified : (k : Known) → Among k known → all_identifiers p k.observation ≡ ok k.items

  pub load-IsLoaded :
      (os : List DeviceObservation) (start final : OrderedDict Text Text) (known : List Known)
      → Identity start
      → load p os start ≡ ok (final, known)
      → IsLoaded os start final known
  unfolding load
  load-IsLoaded [] start final known forest h =
      let (at, none_known) : (start ≡ final) × ([] ≡ known) = (ground arith, ground arith) in
      record {
        forest = subst Identity at forest;
        key_iff = λ x. ground arith;
        observed = rw (← none_known) refl;
        identified = λ k among. absurd (subst (Among k) (sym none_known) among);
      }
  load-IsLoaded (o ∷ os) start final known forest h =
      let id = o.observation_id in
      let (fresh, items, rest, good, done, at) = load-inv o os start final known h in
      let loaded =
        load-IsLoaded os (put id id start) final rest (own_root-Identity id start forest) done in
      record {
        forest = loaded.forest;
        key_iff =
            λ x. ground (arith, loaded.key_iff x, is_key-put id x id start, list_beq_iff id x);
        observed = rw at (ap (λ rest'. o ∷ rest') loaded.observed);
        identified = λ k among. elim (subst (Among k) at among) [
          | inl here ↦ rw here good
          | inr there ↦ loaded.identified k there
        ];
      }
