-- ===== src/OrderedDict.antt =====
-- Python's `collections.OrderedDict`, which the bounded caches of dhcp.py, neighbor.py, mdns.py and
-- passive.py keep: its entries in order, the oldest first.
pub mod Lookup
pub mod Keys
pub mod Size
pub mod Shrink
pub mod Sweep
pub mod Groups
pub mod Grouped
use codexnet.Prelude.{
  Bool, true, false, ◌≡◌, Option, none, some, List, [], ◌∷◌, ◌++◌, ℕ, ltb, length, if◌then◌else◌,
}
use codexnet.Prelude.Keys.{Eq, ◌==◌}

abbrev pub OrderedDict {ℓ κ} : Type ℓ → Type κ → Type (ℓ ⊔ κ)
OrderedDict K V = List (K × V)

module _ {ℓ κ} {K : Type ℓ} {V : Type κ} where
  -- d.popitem(last=False), which the callers reach with a non-empty dictionary
  unfoldable pub pop_first : OrderedDict K V → OrderedDict K V
  pop_first [] = []
  pop_first (e ∷ d) = d

  -- if len(d) > capacity: d.popitem(last=False)
  unfoldable pub trim : ℕ → OrderedDict K V → OrderedDict K V
  unfolding pop_first
  trim capacity d = if ltb capacity (length d) then pop_first d else d

module _ {ℓ κ} {K : Type ℓ} {V : Type κ} ⦃e : Eq K⦄ where
  -- d.get(k)
  unfoldable pub lookup : K → OrderedDict K V → Option V
  lookup k [] = none
  lookup k ((j, v) ∷ d) = if j == k then some v else lookup k d

  -- k in d
  unfoldable pub is_key : K → OrderedDict K V → Bool
  unfolding lookup
  is_key k d = elim (lookup k d) [ none ↦ false | some v ↦ true ]

  -- d[k] = v: a key that is there keeps its place
  unfoldable pub put : K → V → OrderedDict K V → OrderedDict K V
  put k v [] = (k, v) ∷ []
  put k v ((j, w) ∷ d) = let rest = put k v d in if j == k then (j, v) ∷ d else (j, w) ∷ rest

  -- d.pop(k, None), del d[k]
  unfoldable pub remove : K → OrderedDict K V → OrderedDict K V
  remove k [] = []
  remove k ((j, w) ∷ d) = let rest = remove k d in if j == k then rest else (j, w) ∷ rest

  -- d.move_to_end(k)
  unfoldable pub move_to_end : K → OrderedDict K V → OrderedDict K V
  unfolding lookup remove
  move_to_end k d = elim (lookup k d) [ none ↦ d | some v ↦ remove k d ++ (k, v) ∷ [] ]

  -- d[k] = v; d.move_to_end(k)
  unfoldable pub set_last : K → V → OrderedDict K V → OrderedDict K V
  unfolding put move_to_end
  set_last k v d = move_to_end k (put k v d)

  -- No key stands twice, as in every Python dictionary.
  abbrev pub Distinct : OrderedDict K V → Type κ
  Distinct [] = Unit
  Distinct ((k, v) ∷ d) = (lookup k d ≡ none) × Distinct d
