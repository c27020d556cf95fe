-- ===== src/OrderedDict/Grouped.antt =====
-- The members of the groups that a loop over pairs gathers, and their keys.
use codexnet.OrderedDict.Groups.{
  or_empty, entry-collect_into, entry, append_to, collect_into, values_of, keys,
}
use codexnet.Prelude.Sorting.{count_if-append, count_if, Among-map, Among}
use codexnet.Prelude.{
  ◌+◌, Bool, flat_map, refl, some, ◌∙◌, sym, ap, inr, inl, ◌++◌, arith, ◌≡◌, ◌⊎◌, ◌↔◌, List, [],
  ◌∷◌,
}
use codexnet.OrderedDict.{Bool, some, Distinct, List, Eq, OrderedDict, lookup, put}
use codexnet.OrderedDict.Keys.{put-Distinct}
use mathlib.Core.Path.{subst}
use codexnet.Prelude.Keys.{Eq}

module _ {K : Type 0} {V : Type 0} ⦃e : Eq K⦄ where
  pub Among-values_of :
      (k : K) (v : V) (pairs : List (K × V)) → Among v (values_of k pairs) ↔ Among (k, v) pairs
  unfolding values_of
  Among-values_of k v [] = ground arith
  Among-values_of k v ((j, u) ∷ pairs) = ground (arith, Among-values_of k v pairs, e.beq_iff j k)

  Among-keys-put :
      (k j : K) (vs : List V) (d : OrderedDict K (List V))
      → Among k (keys (put j vs d)) ↔ ((k ≡ j) ⊎ Among k (keys d))
  unfolding put
  Among-keys-put k j vs [] = ground arith
  Among-keys-put k j vs ((i, w) ∷ d) = ground (arith, Among-keys-put k j vs d, e.beq_iff i j)

  pub Among-keys-collect_into :
      (k : K) (d : OrderedDict K (List V)) (pairs : List (K × V))
      → Among k (keys (collect_into d pairs)) ↔ (Among k (keys d) ⊎ (v : V) × Among (k, v) pairs)
  unfolding collect_into append_to
  Among-keys-collect_into k d [] = ground arith
  Among-keys-collect_into k d ((j, u) ∷ pairs) =
      let step = Among-keys-collect_into k (append_to j u d) pairs in
      let write = Among-keys-put k j (entry j d ++ u ∷ []) d in
      (
        λ h. elim (step.0 h) [
          | inl old ↦ elim (write.0 old) [
            | inl here ↦ inr (u, inl (ap (λ i. (i, u)) here))
            | inr kept ↦ inl kept
          ]
          | inr (v, among) ↦ inr (v, inr among)
        ],
        λ h. step.1 (elim h [
          | inl old ↦ inl (write.1 (inr old))
          | inr (v, inl here) ↦ inl (write.1 (inl (ap (λ q. q.0) here)))
          | inr (v, inr there) ↦ inr (v, there)
        ]),
      )

  -- The groups of a fresh dictionary hold the pairs' values, and its keys have a value each.
  pub Among-entry :
      (k : K) (v : V) (pairs : List (K × V))
      → Among v (entry k (collect_into [] pairs)) ↔ Among (k, v) pairs
  Among-entry k v pairs =
      rw (entry-collect_into k [] pairs) (unfold entry lookup in Among-values_of k v pairs)

  pub Among-keys :
      (k : K) (pairs : List (K × V))
      → Among k (keys (collect_into [] pairs)) ↔ ((v : V) × Among (k, v) pairs)
  Among-keys k pairs = ground (arith, Among-keys-collect_into k [] pairs)

  collect_into-Distinct :
      (d : OrderedDict K (List V)) (pairs : List (K × V))
      → Distinct d
      → Distinct (collect_into d pairs)
  unfolding collect_into append_to
  collect_into-Distinct d [] h = h
  collect_into-Distinct d ((k, v) ∷ pairs) h =
      collect_into-Distinct (append_to k v d) pairs (put-Distinct k (entry k d ++ v ∷ []) d h)

  Among-lookup :
      (k : K) (vs : List V) (d : OrderedDict K (List V))
      → Distinct d
      → Among (k, vs) d
      → lookup k d ≡ some vs
  unfolding lookup
  Among-lookup k vs [] u h = absurd h
  Among-lookup k vs ((j, ws) ∷ d) u h = ground (arith, Among-lookup k vs d u.1, e.beq_iff j k)

  -- A group is the list of its key's values, and it is not empty.
  pub group_lem :
      (k : K) (vs : List V) (pairs : List (K × V))
      → Among (k, vs) (collect_into [] pairs)
      → vs ≡ values_of k pairs
  group_lem k vs pairs h =
      let hit = Among-lookup k vs (collect_into [] pairs) (collect_into-Distinct [] pairs tt) h in
      let all : entry k (collect_into [] pairs) ≡ vs = unfold entry in rw hit refl in
      sym all ∙ entry-collect_into k [] pairs ∙ (unfold entry lookup in refl)

  pub group_member :
      (k : K) (vs : List V) (pairs : List (K × V))
      → Among (k, vs) (collect_into [] pairs)
      → (v : V) × Among v vs
  group_member k vs pairs h =
      let (v, among) =
        (Among-keys k pairs).0
          ((Among-map (λ g. g.0) k (collect_into [] pairs)).1 ((k, vs), h, refl)) in
      (v, subst (Among v) (sym (group_lem k vs pairs h)) ((Among-values_of k v pairs).1 among))

  -- Every value stands in the group of its key.
  pub grouped :
      (k : K) (v : V) (pairs : List (K × V))
      → Among (k, v) pairs
      → (vs : List V) × Among (k, vs) (collect_into [] pairs) × Among v vs
  grouped k v pairs h =
      let ((j, vs), there, at) =
        (Among-map (λ g. g.0) k (collect_into [] pairs)).0 ((Among-keys k pairs).1 (v, h)) in
      (
        vs,
        subst (λ i. Among (i, vs) (collect_into [] pairs)) (sym at) there,
        subst (Among v)
            (sym (
              group_lem k vs pairs
                (subst (λ i. Among (i, vs) (collect_into [] pairs)) (sym at) there)))
            ((Among-values_of k v pairs).1 h),
      )

  -- Grouping loses no value and repeats none.
  abbrev pub grouped_values : OrderedDict K (List V) → List V
  grouped_values d = flat_map (λ g. g.1) d

  count_if-put :
      (q : V → Bool) (k : K) (vs : List V) (d : OrderedDict K (List V))
      → count_if q (grouped_values (put k vs d)) + count_if q (or_empty (lookup k d))
        ≡ count_if q (grouped_values d) + count_if q vs
  unfolding put lookup
  count_if-put q k vs [] = ground (arith, count_if-append q vs [])
  count_if-put q k vs ((j, ws) ∷ d) = ground (
    arith,
    count_if-put q k vs d,
    count_if-append q ws (grouped_values d),
    count_if-append q vs (grouped_values d),
    count_if-append q ws (grouped_values (put k vs d)),
  )

  count_if-append_to :
      (q : V → Bool) (k : K) (v : V) (d : OrderedDict K (List V))
      → count_if q (grouped_values (append_to k v d))
        ≡ count_if q (grouped_values d) + count_if q (v ∷ [])
  unfolding append_to entry
  count_if-append_to q k v d =
      omega
        (arith, count_if-put q k (entry k d ++ v ∷ []) d, count_if-append q (entry k d) (v ∷ []))

  count_if-collect_into :
      (q : V → Bool) (d : OrderedDict K (List V)) (pairs : List (K × V))
      → count_if q (grouped_values (collect_into d pairs))
        ≡ count_if q (grouped_values d) + count_if (λ u. q u.1) pairs
  unfolding collect_into
  count_if-collect_into q d [] = omega arith
  count_if-collect_into q d ((k, v) ∷ pairs) =
      ground (arith, count_if-collect_into q (append_to k v d) pairs, count_if-append_to q k v d)

  pub count_if-grouped :
      (q : V → Bool) (pairs : List (K × V))
      → count_if q (grouped_values (collect_into [] pairs)) ≡ count_if (λ u. q u.1) pairs
  count_if-grouped q pairs = omega (arith, count_if-collect_into q [] pairs)
