-- ===== src/Correlation/UnionFind/Find.antt =====
-- `find` gives the root of the class and keeps every class and every key.
use codexnet.OrderedDict.{is_key, OrderedDict, put}
use codexnet.OrderedDict.Lookup.{is_key-put}
use codexnet.Prelude.{zero, inl, inr, Bool-cases, ◌∙◌, ap, suc, ℕ, ◌≡◌, ◌<◌, some, length, arith}
use codexnet.Correlation.UnionFind.{suc, find, find_loop, parent_of}
use codexnet.Prelude.Keys.{Eq, ◌==◌}
use codexnet.Prelude.Order.{Order}
use codexnet.Correlation.UnionFind.Forest.{
  IsForest, below, below-le-length, below_strict, below-put, is_key_up, grandparent-lt,
  grandparent_is_key, halve-IsForest,
}

module _ {K : Type 0} ⦃e : Eq K⦄ ⦃o : Order K⦄ where
  -- The same keys, whatever their parents.
  abbrev pub SameKeys : OrderedDict K K → OrderedDict K K → Type 0
  SameKeys d d' = (x : K) → is_key x d' ≡ is_key x d

  pub find_loop_lem :
      (fuel : ℕ) (d : OrderedDict K K) (rep : K → K) (x : K)
      → IsForest d rep
      → below x d < fuel
      → (d' : OrderedDict K K) × (find_loop fuel d x ≡ some (rep x, d'))
        × IsForest d' rep
        × SameKeys d d'
  unfolding find_loop
  find_loop_lem zero d rep x forest h = absurd (omega arith)
  find_loop_lem (suc fuel) d rep x forest h = elim (Bool-cases (parent_of d x == x)) [
    | inl at_root ↦
        let same : x ≡ rep x = ground (arith, forest.fixed x, e.beq_iff (parent_of d x) x) in
        (d, rw at_root (ap (λ r. some (r, d)) same), forest, λ y. ground arith)
    | inr up ↦
        let next = parent_of d (parent_of d x) in
        let less : below next d < below x d =
          below_strict x next d (grandparent_is_key d rep forest x up)
            (grandparent-lt d rep forest x up) in
        let kept : below next (put x next d) ≡ below next d =
          below-put next x next d (is_key_up x d up) in
        let (d', done, forest', same) =
          find_loop_lem fuel (put x next d) rep next (halve-IsForest d rep forest x up)
            (omega arith) in
        let class : rep next ≡ rep x =
          ground (arith, forest.within x, forest.within (parent_of d x)) in
        (
          d',
          rw up (done ∙ ap (λ r. some (r, d')) class),
          forest',
          λ y. ground (arith, same y, is_key-put x y next d, is_key_up x d up, e.beq_iff x y),
        )
  ]

  pub find_lem :
      (d : OrderedDict K K) (rep : K → K) (x : K)
      → IsForest d rep
      → (d' : OrderedDict K K) × (find d x ≡ some (rep x, d')) × IsForest d' rep × SameKeys d d'
  unfolding find
  find_lem d rep x forest =
      find_loop_lem (suc (length d)) d rep x forest (omega (arith, below-le-length x d))
