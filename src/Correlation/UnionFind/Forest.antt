-- ===== src/Correlation/UnionFind/Forest.antt =====
-- The forest that the parents form, and what path halving keeps of it.
use codexnet.OrderedDict.{is_key, OrderedDict, lookup, put}
use codexnet.OrderedDict.Lookup.{is_key-put, lookup-put}
use codexnet.Prelude.{false, if◌then◌else◌, ℕ, ◌≡◌, ◌<◌, ◌≤◌, true, length, arith, [], ◌∷◌}
use codexnet.Correlation.UnionFind.{parent_of}
use codexnet.Prelude.Keys.{Eq, ◌==◌}
use codexnet.Prelude.Order.{lt_asym, Order}
use codexnet.Prelude.Sorting.{count_if}

module _ {K : Type 0} ⦃e : Eq K⦄ ⦃o : Order K⦄ where
  -- The parents form a forest whose roots are what `rep` gives: a parent has the root of its
  -- child, is never larger than it, and is itself a key.
  pub record IsForest (d : OrderedDict K K) (rep : K → K) : Type 0 where
    pub within : (x : K) → rep (parent_of d x) ≡ rep x
    pub fixed : (x : K) → parent_of d x ≡ x → rep x ≡ x
    pub root : (x : K) → parent_of d (rep x) ≡ rep x
    pub ordered : (x : K) → o.lt x (parent_of d x) ≡ false
    pub closed : (x : K) → is_key x d ≡ true → is_key (parent_of d x) d ≡ true
    pub owned : (x : K) → is_key x d ≡ true → is_key (rep x) d ≡ true

  pub parent_of-put :
      (x y : K) (v : K) (d : OrderedDict K K)
      → parent_of (put x v d) y ≡ (if x == y then v else parent_of d y)
  unfolding parent_of
  parent_of-put x y v d = ground (arith, lookup-put x y v d)

  -- How many keys are smaller.
  abbrev pub below : K → OrderedDict K K → ℕ
  below x d = count_if (λ entry. o.lt entry.0 x) d

  pub below-le-length : (x : K) (d : OrderedDict K K) → below x d ≤ length d
  below-le-length x [] = omega arith
  below-le-length x ((k, v) ∷ d) = ground (arith, below-le-length x d)

  below_mono : (x y : K) (d : OrderedDict K K) → o.lt y x ≡ true → below y d ≤ below x d
  below_mono x y [] h = omega arith
  below_mono x y ((k, v) ∷ d) h = ground (arith, below_mono x y d, o.lt_trans k y x)

  pub below_strict :
      (x y : K) (d : OrderedDict K K) → is_key y d ≡ true → o.lt y x ≡ true → below y d < below x d
  unfolding lookup is_key
  below_strict x y [] hit h = ground arith
  below_strict x y ((k, w) ∷ d) hit h =
      ground (
        arith,
        below_strict x y d,
        below_mono x y d,
        o.lt_trans k y x,
        e.beq_iff k y,
        o.lt_irrefl y,
      )

  pub below-put :
      (x y v : K) (d : OrderedDict K K) → is_key y d ≡ true → below x (put y v d) ≡ below x d
  unfolding lookup put is_key
  below-put x y v [] hit = ground arith
  below-put x y v ((k, u) ∷ d) hit = ground (arith, below-put x y v d)

  pub is_key_up : (x : K) (d : OrderedDict K K) → (parent_of d x == x) ≡ false → is_key x d ≡ true
  unfolding parent_of is_key
  is_key_up x d h = ground (arith, e.beq_iff x x)

  module _ (d : OrderedDict K K) (rep : K → K) (forest : IsForest d rep) (x : K) where
    module _ (up : (parent_of d x == x) ≡ false) where
      parent-lt : o.lt (parent_of d x) x ≡ true
      parent-lt =
          ground
            (arith, forest.ordered x, o.eq_of_not_lt x (parent_of d x), e.beq_iff (parent_of d x) x)

      pub grandparent-lt : o.lt (parent_of d (parent_of d x)) x ≡ true
      grandparent-lt = ground (
        arith,
        parent-lt,
        forest.ordered (parent_of d x),
        o.eq_of_not_lt (parent_of d x) (parent_of d (parent_of d x)),
        o.lt_trans (parent_of d (parent_of d x)) (parent_of d x) x,
      )

      pub grandparent_is_key : is_key (parent_of d (parent_of d x)) d ≡ true
      grandparent_is_key =
          ground (arith, is_key_up x d, forest.closed x, forest.closed (parent_of d x))

      pub halve-IsForest : IsForest (put x (parent_of d (parent_of d x)) d) rep
      halve-IsForest = record {
        within = λ y. ground (
          arith,
          parent_of-put x y (parent_of d (parent_of d x)) d,
          forest.within y,
          forest.within x,
          forest.within (parent_of d x),
          e.beq_iff x y,
        );
        fixed = λ y h. ground (
          arith,
          parent_of-put x y (parent_of d (parent_of d x)) d,
          forest.fixed y,
          e.beq_iff x y,
          grandparent-lt,
          o.lt_irrefl x,
        );
        root = λ y. ground (
          arith,
          parent_of-put x (rep y) (parent_of d (parent_of d x)) d,
          forest.root y,
          e.beq_iff x (rep y),
          e.beq_iff (parent_of d x) x,
        );
        ordered = λ y. ground (
          arith,
          parent_of-put x y (parent_of d (parent_of d x)) d,
          forest.ordered y,
          e.beq_iff x y,
          grandparent-lt,
          lt_asym (parent_of d (parent_of d x)) x,
        );
        closed = λ y h. ground (
          arith,
          parent_of-put x y (parent_of d (parent_of d x)) d,
          is_key-put x y (parent_of d (parent_of d x)) d,
          is_key-put x (parent_of d y) (parent_of d (parent_of d x)) d,
          is_key-put x (parent_of d (parent_of d x)) (parent_of d (parent_of d x)) d,
          forest.closed y,
          grandparent_is_key,
          e.beq_iff x y,
        );
        owned = λ y h. ground (
          arith,
          is_key-put x y (parent_of d (parent_of d x)) d,
          is_key-put x (rep y) (parent_of d (parent_of d x)) d,
          forest.owned y,
          is_key_up x d,
          e.beq_iff x y,
        );
      }
