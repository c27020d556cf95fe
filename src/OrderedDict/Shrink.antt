-- ===== src/OrderedDict/Shrink.antt =====
-- `while len(d) > capacity: d.popitem(last=False)`
use codexnet.OrderedDict.{remove, OrderedDict, lookup, set_last, Distinct}
use codexnet.Prelude.{
  ℕ, ◌≤◌, ◌<◌, ◌≡◌, none, some, [], ◌∷◌, ◌++◌, arith, length, ltb, if◌then◌else◌,
}
use codexnet.Prelude.Keys.{Eq, eq_refl}
use codexnet.OrderedDict.Lookup.{set_last_lem, lookup-append_one, lookup-remove_self}

module _ {ℓ κ} {K : Type ℓ} {V : Type κ} where
  unfoldable pub shrink : ℕ → OrderedDict K V → OrderedDict K V
  shrink capacity [] = []
  shrink capacity (e ∷ d) =
      let rest = shrink capacity d in if ltb capacity (length (e ∷ d)) then rest else e ∷ d

  pub length-shrink : (n : ℕ) (d : OrderedDict K V) → length (shrink n d) ≤ n
  unfolding shrink
  length-shrink n [] = omega arith
  length-shrink n (e ∷ d) = ground (arith, length-shrink n d)

module _ {ℓ κ} {K : Type ℓ} {V : Type κ} ⦃e : Eq K⦄ where
  -- What the loop leaves was there before.
  pub lookup_of_shrink :
      (n : ℕ) (k : K) (v : V) (d : OrderedDict K V)
      → Distinct d
      → lookup k (shrink n d) ≡ some v
      → lookup k d ≡ some v
  unfolding shrink lookup
  lookup_of_shrink n k v [] u h = h
  lookup_of_shrink n k v ((i, w) ∷ d) u h =
      ground (arith, lookup_of_shrink n k v d u.1, e.beq_iff i k)

  pub shrink-Distinct : (n : ℕ) (d : OrderedDict K V) → Distinct d → Distinct (shrink n d)
  unfolding shrink
  shrink-Distinct n [] u = tt
  shrink-Distinct n ((i, w) ∷ d) u = ground (arith, shrink-Distinct n d u.1)

  lookup-shrink_append_one :
      (n : ℕ) (k : K) (v : V) (d : OrderedDict K V)
      → 0 < n
      → lookup k d ≡ none
      → lookup k (shrink n (d ++ (k, v) ∷ [])) ≡ some v
  unfolding shrink lookup
  lookup-shrink_append_one n k v [] h a = ground (arith, eq_refl k)
  lookup-shrink_append_one n k v ((i, w) ∷ d) h a =
      ground (arith, lookup-append_one k k v d, eq_refl k, lookup-shrink_append_one n k v d h)

  -- The loop behind a write never drops what was written.
  pub lookup-shrink-set_last :
      (n : ℕ) (k : K) (v : V) (d : OrderedDict K V)
      → 0 < n
      → lookup k (shrink n (set_last k v d)) ≡ some v
  lookup-shrink-set_last n k v d h =
      rw (set_last_lem k v d)
        (lookup-shrink_append_one n k v (remove k d) h (lookup-remove_self k d))
