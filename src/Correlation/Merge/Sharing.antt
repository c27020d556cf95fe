-- ===== src/Correlation/Merge/Sharing.antt =====
-- What the compared pairs connect: two observations with one stable identifier in common, and the
-- chains of such.
use codexnet.Correlation.Merge.{collect_into, OrderedDict, entry, sort_by, Text, List, Claim}
use codexnet.OrderedDict.Groups.{collect_into, keys, entry}
use codexnet.Prelude.{refl, sym, ap, ◌↔◌, ◌≡◌, List, inl, inr, [], ◌∷◌}
use codexnet.Prelude.Sorting.{Among-sort_by, Among-flat_map, Among}
use mathlib.Core.Path.{subst₂, subst}
use codexnet.OrderedDict.{OrderedDict}
use codexnet.Prelude.Order.{sort_by, nat_order, list_order}
use codexnet.Prelude.Text.{Text}
use codexnet.Prelude.Keys.{nat_eq, list_eq}
use codexnet.OrderedDict.Grouped.{Among-entry, Among-keys}
use codexnet.Correlation.UnionFind.Linked.{
  Linked, same, edge, back, chain, Linked-bind, joins, joins_sound, joins_complete,
}
use codexnet.Correlation.Merge.Claims.{star}
use codexnet.Correlation.Merge.Rounds.{claim_pairs, sorted_claims, pairs_of}

abbrev pub In : List (Text × Text) → Text → Text → Type 0
In pairs a b = Among (a, b) pairs

-- One key that is claimed for both.
abbrev pub Shares : List (Text × Claim) → Text → Text → Type 0
Shares claims a b =
    (key : Text) × (c : Claim) × (d : Claim) × Among (key, c) claims
    × Among (key, d) claims
    × (c.0 ≡ a)
    × (d.0 ≡ b)

star_sound :
    (first : Claim) (others : List Claim) (a b : Text)
    → In (star first others) a b
    → (c : Claim) × Among c others × (a ≡ first.0) × (b ≡ c.0)
star_sound first [] a b h = absurd h
star_sound first (o ∷ others) a b (inl here) = (o, inl refl, ap (λ q. q.0) here, ap (λ q. q.1) here)
star_sound first (o ∷ others) a b (inr there) =
    let (c, among, left, right) = star_sound first others a b there in (c, inr among, left, right)

star_complete :
    (first : Claim) (others : List Claim) (c : Claim)
    → Among c others
    → In (star first others) first.0 c.0
star_complete first [] c h = absurd h
star_complete first (o ∷ others) c (inl here) = inl (ap (λ u. (first.0, u.0)) here)
star_complete first (o ∷ others) c (inr there) = inr (star_complete first others c there)

pairs_sound :
    (claims : List Claim) (a b : Text)
    → In (claim_pairs claims) a b
    → (c : Claim) × (d : Claim) × Among c claims × Among d claims × (c.0 ≡ a) × (d.0 ≡ b)
pairs_sound [] a b h = absurd h
pairs_sound (first ∷ others) a b h =
    let (c, among, left, right) = star_sound first others a b h in
    (first, c, inl refl, inr among, sym left, sym right)

from_first :
    (first : Claim) (others : List Claim) (c : Claim)
    → Among c (first ∷ others)
    → Linked (In (star first others)) first.0 c.0
from_first first others c (inl here) =
    subst (λ u. Linked (In (star first others)) first.0 u.0) (sym here) same
from_first first others c (inr there) = edge (star_complete first others c there)

pairs_complete :
    (claims : List Claim) (c d : Claim)
    → Among c claims
    → Among d claims
    → Linked (In (claim_pairs claims)) c.0 d.0
pairs_complete [] c d h k = absurd h
pairs_complete (first ∷ others) c d h k =
    chain (back (from_first first others c h)) (from_first first others d k)

module _ (claims : List (Text × Claim)) where
  abbrev pub index_of : OrderedDict Text (List Claim)
  index_of = collect_into [] claims

  abbrev pub all_keys : List Text
  all_keys = sort_by (λ key. key) (keys index_of)

  abbrev pub all_pairs : List (Text × Text)
  all_pairs = pairs_of index_of all_keys

  pub Among-all_keys : (key : Text) → Among key all_keys ↔ ((c : Claim) × Among (key, c) claims)
  Among-all_keys key = (
    λ h. (Among-keys key claims).0 ((Among-sort_by (λ k. k) key (keys index_of)).0 h),
    λ h. (Among-sort_by (λ k. k) key (keys index_of)).1 ((Among-keys key claims).1 h),
  )

  pub Among-sorted_claims :
      (key : Text) (c : Claim)
      → Among c (sorted_claims (entry key index_of)) ↔ Among (key, c) claims
  Among-sorted_claims key c = (
    λ h. (Among-entry key c claims).0 ((Among-sort_by (λ d. d.0) c (entry key index_of)).0 h),
    λ h. (Among-sort_by (λ d. d.0) c (entry key index_of)).1 ((Among-entry key c claims).1 h),
  )

  pair-Shares : (a b : Text) → In all_pairs a b → Shares claims a b
  pair-Shares a b h =
      let (key, known, at) = (Among-flat_map _ (a, b) all_keys).0 h in
      let (c, d, among_c, among_d, left, right) =
        pairs_sound (sorted_claims (entry key index_of)) a b at in
      (
        key,
        c,
        d,
        (Among-sorted_claims key c).0 among_c,
        (Among-sorted_claims key d).0 among_d,
        left,
        right,
      )

  Shares-Linked : (a b : Text) → Shares claims a b → Linked (In all_pairs) a b
  Shares-Linked a b (key, c, d, hc, hd, left, right) =
      let known = (Among-all_keys key).1 (c, hc) in
      let linked : Linked (In (claim_pairs (sorted_claims (entry key index_of)))) c.0 d.0 =
        pairs_complete (sorted_claims (entry key index_of)) c d ((Among-sorted_claims key c).1 hc)
          ((Among-sorted_claims key d).1 hd) in
      subst₂ (Linked (In all_pairs)) left right
        (Linked-bind (λ u v h. edge ((Among-flat_map _ (u, v) all_keys).1 (key, known, h))) linked)

  -- The classes after all unions are the classes of observations that share stable identifiers.
  pub classes_lem :
      (x y : Text)
      → (joins (λ z. z) all_pairs x ≡ joins (λ z. z) all_pairs y) ↔ Linked (Shares claims) x y
  classes_lem x y = (
    λ h.
        Linked-bind
          (λ u v k. elim k [
            | inl one ↦ subst (λ w. Linked (Shares claims) u w) one same
            | inr at ↦ edge (pair-Shares u v at)
          ])
          (joins_sound (λ z. z) all_pairs x y h),
    λ h.
        joins_complete (λ z. z) all_pairs
          (Linked-bind (λ u v k. Linked-bind (λ a b at. edge (inr at)) (Shares-Linked u v k)) h),
  )
