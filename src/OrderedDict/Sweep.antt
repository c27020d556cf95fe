-- ===== src/OrderedDict/Sweep.antt =====
-- A loop that removes the entries whose values pass a test.
use codexnet.Prelude.{
  ◌+◌, ◌≡◌, ◌↔◌, Bool, false, none, some, List, [], ◌∷◌, arith, length, if◌then◌else◌,
}
use codexnet.Prelude.Keys.{Eq}
use codexnet.OrderedDict.{OrderedDict, lookup, Distinct}

module _ {ℓ κ} {K : Type ℓ} {V : Type κ} (leaves : V → Bool) where
  unfoldable pub kept : OrderedDict K V → OrderedDict K V
  kept [] = []
  kept ((k, v) ∷ d) = let rest = kept d in if leaves v then rest else (k, v) ∷ rest

  -- The values of the removed entries, in their order.
  unfoldable pub removed : OrderedDict K V → List V
  removed [] = []
  removed ((k, v) ∷ d) = let rest = removed d in if leaves v then v ∷ rest else rest

  pub kept_balance : (d : OrderedDict K V) → length (kept d) + length (removed d) ≡ length d
  unfolding kept removed
  kept_balance [] = omega arith
  kept_balance ((k, v) ∷ d) = ground (arith, kept_balance d)

module _ {ℓ κ} {K : Type ℓ} {V : Type κ} ⦃e : Eq K⦄ (leaves : V → Bool) where
  absent-kept : (k : K) (d : OrderedDict K V) → lookup k d ≡ none → lookup k (kept leaves d) ≡ none
  unfolding kept lookup
  absent-kept k [] h = h
  absent-kept k ((i, v) ∷ d) h = ground (arith, absent-kept k d)

  pub kept-Distinct : (d : OrderedDict K V) → Distinct d → Distinct (kept leaves d)
  unfolding kept
  kept-Distinct [] u = tt
  kept-Distinct ((i, v) ∷ d) u = ground (arith, kept-Distinct d u.1, absent-kept i d)

  lookup_of_kept :
      (k : K) (v : V) (d : OrderedDict K V)
      → Distinct d
      → lookup k (kept leaves d) ≡ some v
      → (lookup k d ≡ some v) × (leaves v ≡ false)
  unfolding kept lookup
  lookup_of_kept k v [] u h = cc
  lookup_of_kept k v ((i, w) ∷ d) u h =
      ground (arith, lookup_of_kept k v d u.1, absent-kept i d, e.beq_iff i k)

  kept_of_lookup :
      (k : K) (v : V) (d : OrderedDict K V)
      → lookup k d ≡ some v
      → leaves v ≡ false
      → lookup k (kept leaves d) ≡ some v
  unfolding kept lookup
  kept_of_lookup k v [] h stays = h
  kept_of_lookup k v ((i, w) ∷ d) h stays = ground (arith, kept_of_lookup k v d)

  -- An entry is there behind the loop exactly if it was there and does not pass the test.
  pub lookup-kept_iff :
      (k : K) (v : V) (d : OrderedDict K V)
      → Distinct d
      → (lookup k (kept leaves d) ≡ some v) ↔ ((lookup k d ≡ some v) × (leaves v ≡ false))
  lookup-kept_iff k v d u = (lookup_of_kept k v d u, λ (hit, stays). kept_of_lookup k v d hit stays)
