-- ===== src/Correlation/Merge/Rounds.antt =====
-- The loop over the sorted evidence keys: every key's claims are merged, and the loop ends.
use codexnet.Prelude.{
  append_assoc, ap, refl, ◌∙◌, append-nil, ◌++◌, flat_map, sym, ◌≡◌, List, inl, inr, [], ◌∷◌,
}
use codexnet.Prelude.Sorting.{Among-sort_by, Among}
use codexnet.Correlation.Merge.{
  merge_sorted, ok, entry, sort_by, List, OrderedDict, Text, Claim, Merging, merge_key, merge_keys,
}
use codexnet.Prelude.Result.{ok}
use codexnet.OrderedDict.Groups.{entry}
use codexnet.Prelude.Order.{sort_by, nat_order, list_order}
use codexnet.OrderedDict.{OrderedDict}
use codexnet.Prelude.Text.{Text}
use codexnet.Prelude.Keys.{nat_eq, list_eq}
use codexnet.Correlation.Evidence.{CorrelationDecision}
use codexnet.Correlation.UnionFind.Forest.{IsForest}
use codexnet.Correlation.UnionFind.Linked.{joins, joins-append}
use codexnet.Correlation.Merge.Claims.{star, decided, KeysOf, Merged, merge_claims_lem}

abbrev pub claim_pairs : List Claim → List (Text × Text)
claim_pairs [] = []
claim_pairs (first ∷ others) = star first others

abbrev pub claim_decisions : (Text → Text) → Text → List Claim → List CorrelationDecision
claim_decisions rep key [] = []
claim_decisions rep key (first ∷ others) = decided rep key first others

abbrev pub sorted_claims : List Claim → List Claim
sorted_claims claims = sort_by (λ c. c.0) claims

module _ (index : OrderedDict Text (List Claim)) where
  -- The pairs that the loop compares, key by key.
  abbrev pub pairs_of : List Text → List (Text × Text)
  pairs_of keys' = flat_map (λ key. claim_pairs (sorted_claims (entry key index))) keys'

  abbrev pub decisions_of : (Text → Text) → List Text → List CorrelationDecision
  decisions_of rep [] = []
  decisions_of rep (key ∷ rest) =
      let claims = sorted_claims (entry key index) in
      claim_decisions rep key claims ++ decisions_of (joins rep (claim_pairs claims)) rest

  abbrev pub AllClaimed : List Text → Type 0
  AllClaimed keys' = (key : Text) → Among key keys' → (c : Claim) × Among c (entry key index)

  abbrev pub AllKnown : List Text → OrderedDict Text Text → Type 0
  AllKnown keys' d = (key : Text) → Among key keys' → KeysOf (entry key index) d

module _ (key : Text) (s : Merging) (rep : Text → Text) where
  sorted_outcome :
      (claims : List Claim)
      → (c : Claim) × Among c claims
      → IsForest s.parent rep
      → KeysOf claims s.parent
      → (s' : Merging) × (merge_sorted key claims s ≡ ok s')
        × Merged rep (claim_pairs claims) (claim_decisions rep key claims) s s'
  sorted_outcome [] some_claim forest hs = absurd some_claim.1
  sorted_outcome (first ∷ others) some_claim forest hs =
      merge_claims_lem key first others s rep forest (hs first (inl refl))
        (λ c among. hs c (inr among))

  merge_key_lem :
      (claims : List Claim)
      → (c : Claim) × Among c claims
      → IsForest s.parent rep
      → KeysOf claims s.parent
      → (s' : Merging) × (merge_key key claims s ≡ ok s')
        × Merged rep
            (claim_pairs (sorted_claims claims))
            (claim_decisions rep key (sorted_claims claims))
            s
            s'
  unfolding merge_key
  merge_key_lem claims (c, among) forest hs =
      sorted_outcome (sorted_claims claims) (c, (Among-sort_by (λ d. d.0) c claims).1 among) forest
        (λ d h. hs d ((Among-sort_by (λ u. u.0) d claims).0 h))

module _ (index : OrderedDict Text (List Claim)) where
  abbrev pub RoundsEnd : List Text → Type 0
  RoundsEnd keys' =
      (s : Merging) (rep : Text → Text)
      → IsForest s.parent rep
      → AllClaimed index keys'
      → AllKnown index keys' s.parent
      → (s' : Merging) × (merge_keys keys' index s ≡ ok s')
        × Merged rep (pairs_of index keys') (decisions_of index rep keys') s s'

  round_then :
      (key : Text) (rest : List Text) (s s1 : Merging) (rep : Text → Text)
      → merge_key key (entry key index) s ≡ ok s1
      → Merged rep
          (claim_pairs (sorted_claims (entry key index)))
          (claim_decisions rep key (sorted_claims (entry key index)))
          s
          s1
      → AllClaimed index (key ∷ rest)
      → AllKnown index (key ∷ rest) s.parent
      → RoundsEnd rest
      → (s' : Merging) × (merge_keys (key ∷ rest) index s ≡ ok s')
        × Merged rep (pairs_of index (key ∷ rest)) (decisions_of index rep (key ∷ rest)) s s'
  unfolding merge_keys
  round_then key rest s s1 rep done (forest, kept, added) claimed known ends =
      let claims = sorted_claims (entry key index) in
      let (s', done', (forest', kept', added')) =
        ends s1 (joins rep (claim_pairs claims)) forest (λ k among. claimed k (inr among))
          (λ k among c h. kept c.0 ∙ known k (inr among) c h) in
      (
        s',
        rw (done, merge_keys) done',
        (
          rw (joins-append rep (claim_pairs claims) (pairs_of index rest)) forest',
          λ x. kept' x ∙ kept x,
          added'
              ∙ ap (λ ds. ds ++ decisions_of index (joins rep (claim_pairs claims)) rest) added
              ∙ append_assoc s.decisions (claim_decisions rep key claims) _,
        ),
      )

  pub merge_keys_lem : (keys' : List Text) → RoundsEnd keys'
  unfolding merge_keys
  merge_keys_lem [] s rep forest claimed known =
      (s, refl, (forest, λ x. refl, sym (append-nil s.decisions)))
  merge_keys_lem (key ∷ rest) s rep forest claimed known =
      let (s1, done, merged) =
        merge_key_lem key s rep (entry key index) (claimed key (inl refl)) forest
          (known key (inl refl)) in
      round_then key rest s s1 rep done merged claimed known (merge_keys_lem rest)
