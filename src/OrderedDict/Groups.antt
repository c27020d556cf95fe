-- ===== src/OrderedDict/Groups.antt =====
-- Values grouped under their keys, as a `collections.defaultdict(list)` gathers them.
use codexnet.Prelude.{
  refl, inr, append_assoc, inl, Bool-cases, ◌∙◌, append-nil, arith, sym, ◌≡◌, if◌then◌else◌, ◌∷◌,
  [], map, ◌++◌, List, Option, none, some,
}
use codexnet.OrderedDict.Lookup.{lookup-put}
use codexnet.Prelude.Keys.{◌==◌, Eq}
use codexnet.OrderedDict.{[], List, Option, Eq, OrderedDict, lookup, put}

abbrev pub or_empty {ℓ} : {V : Type ℓ} → Option (List V) → List V
or_empty none = []
or_empty (some vs) = vs

module _ {ℓ κ} {K : Type ℓ} {V : Type κ} ⦃e : Eq K⦄ where
  -- d[k] of a `defaultdict(list)`
  unfoldable pub entry : K → OrderedDict K (List V) → List V
  entry k d = or_empty (lookup k d)

  -- d[k].append(v)
  unfoldable pub append_to : K → V → OrderedDict K (List V) → OrderedDict K (List V)
  unfolding entry
  append_to k v d = put k (entry k d ++ v ∷ []) d

  -- for k, v in pairs: d[k].append(v)
  unfoldable pub collect_into : OrderedDict K (List V) → List (K × V) → OrderedDict K (List V)
  unfolding append_to
  collect_into d [] = d
  collect_into d ((k, v) ∷ pairs) = collect_into (append_to k v d) pairs

  -- The values under one key, in order.
  unfoldable pub values_of : K → List (K × V) → List V
  values_of k [] = []
  values_of k ((j, v) ∷ pairs) = let rest = values_of k pairs in if j == k then v ∷ rest else rest

  abbrev pub keys : OrderedDict K (List V) → List K
  keys = map (λ e. e.0)

  pub entry-append_to :
      (k j : K) (v : V) (d : OrderedDict K (List V))
      → entry j (append_to k v d) ≡ (if k == j then entry j d ++ v ∷ [] else entry j d)
  unfolding entry append_to
  entry-append_to k j v d = ground (arith, lookup-put k j (entry k d ++ v ∷ []) d, e.beq_iff k j)

  -- What a group holds after the loop.
  pub entry-collect_into :
      (k : K) (d : OrderedDict K (List V)) (pairs : List (K × V))
      → entry k (collect_into d pairs) ≡ entry k d ++ values_of k pairs
  unfolding collect_into values_of
  entry-collect_into k d [] = sym (append-nil (entry k d))
  entry-collect_into k d ((j, v) ∷ pairs) =
      entry-collect_into k (append_to j v d) pairs ∙ elim (Bool-cases (j == k)) [
        | inl here ↦
            rw (entry-append_to j k v d, here, if◌then◌else◌)
              (append_assoc (entry k d) (v ∷ []) (values_of k pairs))
        | inr away ↦ rw (entry-append_to j k v d, away, if◌then◌else◌) refl
      ]
