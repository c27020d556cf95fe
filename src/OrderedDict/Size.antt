-- ===== src/OrderedDict/Size.antt =====
-- How many entries each operation leaves, and what survives a trim.
use codexnet.Prelude.{
  ◌≡◌, inl, inr, Option-cases, none, [], ◌∷◌, ◌++◌, some, arith, ℕ, ◌+◌, ◌≤◌, ◌<◌, length,
  length-append, refl,
}
use codexnet.Prelude.Keys.{Eq, eq_refl}
use codexnet.OrderedDict.{
  OrderedDict, lookup, remove, move_to_end, set_last, Distinct, trim, pop_first,
}
use codexnet.OrderedDict.Lookup.{set_last_lem, lookup-append_one, lookup-remove_self}

module _ {ℓ κ} {K : Type ℓ} {V : Type κ} where
  pub length-trim-le : (n : ℕ) (d : OrderedDict K V) → length d ≤ n + 1 → length (trim n d) ≤ n
  unfolding trim
  length-trim-le n [] h = ground arith
  length-trim-le n (x ∷ d) h = ground arith

module _ {ℓ κ} {K : Type ℓ} {V : Type κ} ⦃e : Eq K⦄ where
  pub remove_absent : (k : K) (d : OrderedDict K V) → lookup k d ≡ none → remove k d ≡ d
  unfolding lookup remove
  remove_absent k [] h = refl
  remove_absent k ((i, w) ∷ d) h = ground (arith, remove_absent k d)

  pub length-remove-le : (k : K) (d : OrderedDict K V) → length (remove k d) ≤ length d
  unfolding remove
  length-remove-le k [] = omega arith
  length-remove-le k ((i, w) ∷ d) = ground (arith, length-remove-le k d)

  -- With distinct keys a hit takes exactly one entry away.
  pub length-remove :
      (k : K) (v : V) (d : OrderedDict K V)
      → Distinct d
      → lookup k d ≡ some v
      → length (remove k d) + 1 ≡ length d
  unfolding lookup remove
  length-remove k v [] u h = ground arith
  length-remove k v ((i, w) ∷ d) u h =
      ground (arith, length-remove k v d u.1, remove_absent k d, e.beq_iff i k)

  pub length-set_last-le :
      (k : K) (v : V) (d : OrderedDict K V) → length (set_last k v d) ≤ length d + 1
  length-set_last-le k v d =
      rw (set_last_lem k v d)
        (omega (arith, length-append (remove k d) ((k, v) ∷ []), length-remove-le k d))

  lookup-trim_append_one :
      (n : ℕ) (k : K) (v : V) (d : OrderedDict K V)
      → 0 < n
      → lookup k d ≡ none
      → lookup k (trim n (d ++ (k, v) ∷ [])) ≡ some v
  unfolding trim pop_first lookup
  lookup-trim_append_one n k v [] h a = ground (arith, eq_refl k)
  lookup-trim_append_one n k v ((i, w) ∷ d) h a =
      ground (arith, lookup-append_one k k v d, eq_refl k)

  -- A trim that follows a write never drops what was written.
  pub lookup-trim-set_last :
      (n : ℕ) (k : K) (v : V) (d : OrderedDict K V)
      → 0 < n
      → lookup k (trim n (set_last k v d)) ≡ some v
  lookup-trim-set_last n k v d h =
      rw (set_last_lem k v d) (lookup-trim_append_one n k v (remove k d) h (lookup-remove_self k d))

  -- A trim invents nothing.
  pub lookup_of_trim :
      (n : ℕ) (k : K) (v : V) (d : OrderedDict K V)
      → Distinct d
      → lookup k (trim n d) ≡ some v
      → lookup k d ≡ some v
  unfolding trim pop_first lookup
  lookup_of_trim n k v [] u h = ground arith
  lookup_of_trim n k v ((i, w) ∷ d) u h = ground (arith, e.beq_iff i k)

  pub length-move_to_end :
      (k : K) (d : OrderedDict K V) → Distinct d → length (move_to_end k d) ≡ length d
  unfolding move_to_end
  length-move_to_end k d u = elim (Option-cases (lookup k d)) [
    | inl miss ↦ rw (miss, move_to_end)
    | inr (v, hit) ↦
        rw (hit, move_to_end)
          (omega (arith, length-append (remove k d) ((k, v) ∷ []), length-remove k v d u hit))
  ]

  -- A write under a key that is there keeps the number of entries.
  pub length-set_last_of_some :
      (k : K) (old new : V) (d : OrderedDict K V)
      → Distinct d
      → lookup k d ≡ some old
      → length (set_last k new d) ≡ length d
  length-set_last_of_some k old new d u hit =
      rw (set_last_lem k new d)
        (omega (arith, length-append (remove k d) ((k, new) ∷ []), length-remove k old d u hit))
