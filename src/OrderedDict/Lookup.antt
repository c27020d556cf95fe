-- ===== src/OrderedDict/Lookup.antt =====
-- What a lookup gives after each operation, and `set_last` as one write.
use codexnet.Prelude.{
  ◌||◌, ◌≡◌, refl, none, some, [], ◌∷◌, ◌++◌, arith, if◌then◌else◌, inl, inr, Option-cases,
}
use codexnet.OrderedDict.{is_key, OrderedDict, lookup, put, remove, move_to_end, set_last}
use codexnet.Prelude.Keys.{Eq, ◌==◌, eq_refl}

module _ {ℓ κ} {K : Type ℓ} {V : Type κ} ⦃e : Eq K⦄ where
  pub lookup-put :
      (k j : K) (v : V) (d : OrderedDict K V)
      → lookup j (put k v d) ≡ (if k == j then some v else lookup j d)
  unfolding lookup put
  lookup-put k j v [] = ground arith
  lookup-put k j v ((i, w) ∷ d) =
      ground (arith, e.beq_iff k j, e.beq_iff i k, e.beq_iff i j, lookup-put k j v d)

  pub is_key-put :
      (k j : K) (v : V) (d : OrderedDict K V) → is_key j (put k v d) ≡ (k == j || is_key j d)
  unfolding is_key
  is_key-put k j v d = ground (arith, lookup-put k j v d)

  pub lookup-remove :
      (k j : K) (d : OrderedDict K V)
      → lookup j (remove k d) ≡ (if k == j then none else lookup j d)
  unfolding lookup remove
  lookup-remove k j [] = ground arith
  lookup-remove k j ((i, w) ∷ d) =
      ground (arith, e.beq_iff k j, e.beq_iff i k, e.beq_iff i j, lookup-remove k j d)

  pub lookup-append_one :
      (k j : K) (v : V) (d : OrderedDict K V)
      → lookup k d ≡ none
      → lookup j (d ++ (k, v) ∷ []) ≡ (if k == j then some v else lookup j d)
  unfolding lookup
  lookup-append_one k j v [] h = ground arith
  lookup-append_one k j v ((i, w) ∷ d) h =
      ground (arith, e.beq_iff k j, e.beq_iff i k, e.beq_iff i j, lookup-append_one k j v d)

  pub remove-put : (k : K) (v : V) (d : OrderedDict K V) → remove k (put k v d) ≡ remove k d
  unfolding remove put
  remove-put k v [] = ground (arith, e.beq_iff k k)
  remove-put k v ((i, w) ∷ d) = ground (arith, e.beq_iff i k, remove-put k v d)

  -- The write and the move together: the key leaves its place and stands last with the new value.
  pub set_last_lem :
      (k : K) (v : V) (d : OrderedDict K V) → set_last k v d ≡ remove k d ++ (k, v) ∷ []
  unfolding set_last
  set_last_lem k v d =
      let hit : lookup k (put k v d) ≡ some v = ground (arith, lookup-put k k v d, eq_refl k) in
      ground (arith, hit, remove-put k v d)

  pub lookup-remove_self : (k : K) (d : OrderedDict K V) → lookup k (remove k d) ≡ none
  lookup-remove_self k d = ground (arith, lookup-remove k k d, eq_refl k)

  pub lookup-set_last :
      (k j : K) (v : V) (d : OrderedDict K V)
      → lookup j (set_last k v d) ≡ (if k == j then some v else lookup j d)
  lookup-set_last k j v d = ground (
    arith,
    set_last_lem k v d,
    lookup-append_one k j v (remove k d),
    lookup-remove_self k d,
    lookup-remove k j d,
  )

  pub lookup-move_to_end : (k j : K) (d : OrderedDict K V) → lookup j (move_to_end k d) ≡ lookup j d
  unfolding move_to_end
  lookup-move_to_end k j d = elim (Option-cases (lookup k d)) [
    | inl miss ↦ rw (miss, move_to_end)
    | inr (v, hit) ↦
        rw (hit, move_to_end)
          (ground (
            arith,
            lookup-append_one k j v (remove k d),
            lookup-remove_self k d,
            lookup-remove k j d,
            e.beq_iff k j,
            hit,
          ))
  ]

  pub put_absent :
      (k : K) (v : V) (d : OrderedDict K V) → lookup k d ≡ none → put k v d ≡ d ++ (k, v) ∷ []
  unfolding lookup put
  put_absent k v [] h = refl
  put_absent k v ((i, w) ∷ d) h = ground (arith, put_absent k v d)
