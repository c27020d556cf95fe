-- ===== src/Correlation/UnionFind.antt =====
-- The nested functions `find` and `union` of `correlate`, over the dictionary `parent`.
pub mod Forest
pub mod Find
pub mod Union
pub mod Linked
use codexnet.Prelude.{ℕ, suc, zero, Option, none, some, if◌then◌else◌, length}
use codexnet.Prelude.Keys.{Eq, ◌==◌}
use codexnet.Prelude.Order.{Order}
use codexnet.OrderedDict.{OrderedDict, lookup, put}

module _ {ℓ} {K : Type ℓ} ⦃e : Eq K⦄ where
  abbrev or_else : Option K → K → K
  or_else none x = x
  or_else (some y) x = y

  -- parent[item], which the code reads at keys only
  unfoldable pub parent_of : OrderedDict K K → K → K
  parent_of d x = or_else (lookup x d) x

  -- The loop of `find` with its path halving; `none` is fuel that ran out.
  unfoldable pub find_loop : ℕ → OrderedDict K K → K → Option (K × OrderedDict K K)
  unfolding parent_of
  find_loop zero d x = none
  find_loop (suc fuel) d x =
      let next = parent_of d (parent_of d x) in
      let rest = find_loop fuel (put x next d) next in
      if parent_of d x == x then some (x, d) else rest

  unfoldable pub find : OrderedDict K K → K → Option (K × OrderedDict K K)
  unfolding find_loop
  find d x = find_loop (suc (length d)) d x

  module _ ⦃o : Order K⦄ where
    -- first, second = sorted((left_root, right_root)); parent[second] = first
    unfoldable pub link : K → K → OrderedDict K K → OrderedDict K K
    link left right d = if o.lt right left then put left right d else put right left d

    unfoldable pub union : OrderedDict K K → K → K → Option (OrderedDict K K)
    unfolding find link
    union d left right = elim (find d left) [
      | none ↦ none
      | some (left_root, d1) ↦ elim (find d1 right) [
        | none ↦ none
        | some (right_root, d2) ↦ some (link left_root right_root d2)
      ]
    ]
