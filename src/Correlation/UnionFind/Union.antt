-- ===== src/Correlation/UnionFind/Union.antt =====
-- `union` makes two classes one, under the smaller of the roots.
use codexnet.Correlation.UnionFind.Forest.{IsForest, parent_of-put}
use codexnet.OrderedDict.Lookup.{is_key-put}
use codexnet.OrderedDict.{is_key, OrderedDict, put}
use codexnet.Prelude.{refl, false, inl, inr, Bool-cases, if◌then◌else◌, ◌≡◌, some, true, arith}
use codexnet.Correlation.UnionFind.{link, union, parent_of}
use codexnet.Prelude.Keys.{eq_refl, Eq, ◌==◌}
use codexnet.Prelude.Order.{lt_asym, Order}
use codexnet.Correlation.UnionFind.Find.{find_lem, SameKeys}

module _ {K : Type 0} ⦃e : Eq K⦄ ⦃o : Order K⦄ where
  -- The classes of two roots made one: the smaller root is the root of both.
  abbrev pub moved : (K → K) → K → K → K → K
  moved rep second first x = if rep x == second then first else rep x

  abbrev pub joined : (K → K) → K → K → K → K
  joined rep a b =
      if o.lt (rep b) (rep a) then moved rep (rep a) (rep b) else moved rep (rep b) (rep a)

  module _ (d : OrderedDict K K) (rep : K → K) (forest : IsForest d rep) where
    put-IsForest :
        (first second : K)
        → parent_of d first ≡ first
        → parent_of d second ≡ second
        → o.lt second first ≡ false
        → is_key first d ≡ true
        → is_key second d ≡ true
        → IsForest (put second first d) (moved rep second first)
    put-IsForest first second h k less kf ks = record {
      within = λ x. ground (
        arith,
        parent_of-put second x first d,
        forest.within x,
        forest.fixed first h,
        forest.fixed second k,
        e.beq_iff second x,
        e.beq_iff (rep x) second,
        e.beq_iff first second,
        eq_refl second,
      );
      fixed = λ x fix. ground (
        arith,
        parent_of-put second x first d,
        forest.fixed x,
        forest.fixed second k,
        e.beq_iff second x,
        e.beq_iff (rep x) second,
      );
      root = λ x. ground (
        arith,
        parent_of-put second first first d,
        parent_of-put second (rep x) first d,
        forest.root x,
        h,
        e.beq_iff second first,
        e.beq_iff second (rep x),
        e.beq_iff (rep x) second,
      );
      ordered =
          λ x. ground (arith, parent_of-put second x first d, forest.ordered x, e.beq_iff second x);
      closed = λ x hit. ground (
        arith,
        parent_of-put second x first d,
        is_key-put second x first d,
        is_key-put second first first d,
        is_key-put second (parent_of d x) first d,
        forest.closed x,
        e.beq_iff second x,
      );
      owned = λ x hit. ground (
        arith,
        is_key-put second x first d,
        is_key-put second first first d,
        is_key-put second (rep x) first d,
        forest.owned x,
        forest.owned second,
        e.beq_iff second x,
      );
    }

    pub link_lem :
        (a b : K)
        → is_key a d ≡ true
        → is_key b d ≡ true
        → IsForest (link (rep a) (rep b) d) (joined rep a b)
    unfolding link
    link_lem a b h k = elim (Bool-cases (o.lt (rep b) (rep a))) [
      | inl less ↦
          rw (less, if◌then◌else◌)
            (put-IsForest (rep b) (rep a) (forest.root b) (forest.root a)
              (lt_asym (rep b) (rep a) less) (forest.owned b k) (forest.owned a h))
      | inr not_less ↦
          rw (not_less, if◌then◌else◌)
            (put-IsForest (rep a) (rep b) (forest.root a) (forest.root b) not_less
              (forest.owned a h) (forest.owned b k))
    ]

    link-SameKeys :
        (a b : K) → is_key a d ≡ true → is_key b d ≡ true → SameKeys d (link (rep a) (rep b) d)
    unfolding link
    link-SameKeys a b h k x = ground (
      arith,
      is_key-put (rep a) x (rep b) d,
      is_key-put (rep b) x (rep a) d,
      forest.owned a,
      forest.owned b,
      e.beq_iff (rep a) x,
      e.beq_iff (rep b) x,
    )

  pub union_lem :
      (d : OrderedDict K K) (rep : K → K) (a b : K)
      → IsForest d rep
      → is_key a d ≡ true
      → is_key b d ≡ true
      → (d' : OrderedDict K K) × (union d a b ≡ some d')
        × IsForest d' (joined rep a b)
        × SameKeys d d'
  unfolding union
  union_lem d rep a b forest h k =
      let (d1, found, forest1, same1) = find_lem d rep a forest in
      let (d2, found2, forest2, same2) = find_lem d1 rep b forest1 in
      let ha : is_key a d2 ≡ true = ground (arith, same1 a, same2 a) in
      let hb : is_key b d2 ≡ true = ground (arith, same1 b, same2 b) in
      (
        link (rep a) (rep b) d2,
        rw (found, found2, union) refl,
        link_lem d2 rep forest2 a b ha hb,
        λ x. ground (arith, same1 x, same2 x, link-SameKeys d2 rep forest2 a b ha hb x),
      )
