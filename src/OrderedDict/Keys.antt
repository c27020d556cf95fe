-- ===== src/OrderedDict/Keys.antt =====
-- Every operation keeps the keys distinct.
use codexnet.Prelude.{◌≡◌, none, [], ◌∷◌, ◌++◌, arith, inl, inr, Option-cases, ℕ}
use codexnet.Prelude.Keys.{Eq}
use codexnet.OrderedDict.{
  OrderedDict, lookup, put, remove, move_to_end, set_last, Distinct, trim, pop_first,
}
use codexnet.OrderedDict.Lookup.{
  lookup-put, lookup-remove, lookup-append_one, lookup-remove_self, set_last_lem,
}

module _ {ℓ κ} {K : Type ℓ} {V : Type κ} ⦃e : Eq K⦄ where
  pub remove-Distinct : (k : K) (d : OrderedDict K V) → Distinct d → Distinct (remove k d)
  unfolding remove
  remove-Distinct k [] h = tt
  remove-Distinct k ((i, w) ∷ d) h = ground (arith, remove-Distinct k d h.1, lookup-remove k i d)

  pub append_one-Distinct :
      (k : K) (v : V) (d : OrderedDict K V)
      → lookup k d ≡ none
      → Distinct d
      → Distinct (d ++ (k, v) ∷ [])
  unfolding lookup
  append_one-Distinct k v [] h u = (ground arith, tt)
  append_one-Distinct k v ((i, w) ∷ d) h u =
      ground
        (arith, append_one-Distinct k v d, lookup-append_one k i v d, e.beq_iff i k, e.beq_iff k i)

  pub put-Distinct : (k : K) (v : V) (d : OrderedDict K V) → Distinct d → Distinct (put k v d)
  unfolding put
  put-Distinct k v [] h = (unfold lookup in ground arith, tt)
  put-Distinct k v ((i, w) ∷ d) h =
      ground (arith, put-Distinct k v d h.1, lookup-put k i v d, e.beq_iff i k, e.beq_iff k i)

  pub set_last-Distinct :
      (k : K) (v : V) (d : OrderedDict K V) → Distinct d → Distinct (set_last k v d)
  set_last-Distinct k v d h =
      rw (set_last_lem k v d)
        (append_one-Distinct k v (remove k d) (lookup-remove_self k d) (remove-Distinct k d h))

  pub move_to_end-Distinct : (k : K) (d : OrderedDict K V) → Distinct d → Distinct (move_to_end k d)
  unfolding move_to_end
  move_to_end-Distinct k d h = elim (Option-cases (lookup k d)) [
    | inl miss ↦ rw (miss, move_to_end) h
    | inr (v, hit) ↦
        rw (hit, move_to_end)
          (append_one-Distinct k v (remove k d) (lookup-remove_self k d) (remove-Distinct k d h))
  ]

  pub pop_first-Distinct : (d : OrderedDict K V) → Distinct d → Distinct (pop_first d)
  unfolding pop_first
  pop_first-Distinct [] h = tt
  pop_first-Distinct (x ∷ d) h = h.1

  pub trim-Distinct : (n : ℕ) (d : OrderedDict K V) → Distinct d → Distinct (trim n d)
  unfolding trim
  trim-Distinct n [] h = ground arith
  trim-Distinct n (x ∷ d) h = ground arith
