-- ===== src/Correlation/Merge/Claims.antt =====
-- One list of claims merged: the classes afterwards and the decisions, and that no loop runs out of
-- fuel.
use codexnet.Correlation.Merge.{
  union, some, find, ok, OrderedDict, is_key, min, List, Text, Claim, Merging, merge_claims,
  merge_reason,
}
use codexnet.Correlation.UnionFind.{union, find}
use codexnet.Prelude.{
  false, some, refl, append_assoc, ◌∙◌, arith, Bool-cases, append-nil, sym, ◌++◌, if◌then◌else◌,
  min, ◌≡◌, List, inl, inr, true, [], ◌∷◌,
}
use codexnet.Prelude.Keys.{◌==◌, nat_eq, list_eq}
use codexnet.Prelude.Result.{ok}
use codexnet.Prelude.Sorting.{Among}
use codexnet.OrderedDict.{OrderedDict, is_key}
use codexnet.Prelude.Text.{Text}
use codexnet.Prelude.Order.{nat_order, list_order}
use codexnet.Correlation.Evidence.{CorrelationDecision}
use codexnet.Correlation.UnionFind.Forest.{IsForest}
use codexnet.Correlation.UnionFind.Find.{SameKeys, find_lem}
use codexnet.Correlation.UnionFind.Union.{joined, union_lem}
use codexnet.Correlation.UnionFind.Linked.{joins}

-- The pairs that the loop compares.
abbrev pub star : Claim → List Claim → List (Text × Text)
star first [] = []
star first (other ∷ others) = (first.0, other.0) ∷ star first others

abbrev pub decision_on : Text → Claim → Claim → CorrelationDecision
decision_on key first other = record {
  left_observation_id = first.0;
  right_observation_id = other.0;
  evidence_key = key;
  confidence = min first.1.confidence other.1.confidence;
  reason = merge_reason;
}

-- The decisions that the loop adds.
abbrev pub decided : (Text → Text) → Text → Claim → List Claim → List CorrelationDecision
decided rep key first [] = []
decided rep key first (other ∷ others) =
    let skipped = decided rep key first others in
    let united = decided (joined rep first.0 other.0) key first others in
    if rep first.0 == rep other.0 then skipped else decision_on key first other ∷ united

abbrev pub KeysOf : List Claim → OrderedDict Text Text → Type 0
KeysOf claims d = (c : Claim) → Among c claims → is_key c.0 d ≡ true

-- What the loop makes of a forest.
abbrev pub Merged :
    (Text → Text) → List (Text × Text) → List CorrelationDecision → Merging → Merging → Type 0
Merged rep pairs added s s' =
    IsForest s'.parent (joins rep pairs)
    × SameKeys s.parent s'.parent
    × (s'.decisions ≡ s.decisions ++ added)

-- The loop ends, and with what.
abbrev pub Outcome : Text → Claim → List Claim → Merging → (Text → Text) → Type 0
Outcome key first others s rep =
    (s' : Merging) × (merge_claims key first others s ≡ ok s')
    × Merged rep (star first others) (decided rep key first others) s s'

-- The loop over the claims that are left, from every forest.
abbrev pub Ends : Text → Claim → List Claim → Type 0
Ends key first others =
    (s : Merging) (rep : Text → Text)
    → IsForest s.parent rep
    → is_key first.0 s.parent ≡ true
    → KeysOf others s.parent
    → Outcome key first others s rep

module _ (key : Text) (first other : Claim) (others : List Claim) (s : Merging) (rep : Text → Text)
    {d1 d2 : OrderedDict Text Text} (found : find s.parent first.0 ≡ some (rep first.0, d1))
    (found2 : find d1 other.0 ≡ some (rep other.0, d2)) where
  skip-Outcome :
      SameKeys s.parent d2
      → (rep first.0 == rep other.0) ≡ true
      → Outcome key first others (record s { parent = d2 }) rep
      → Outcome key first (other ∷ others) s rep
  unfolding merge_claims
  skip-Outcome kept one (s', done, (forest', same', added)) = (
    s',
    rw (found, found2, one, merge_claims) done,
    rw (one, if◌then◌else◌) (forest', λ x. ground (arith, kept x, same' x), added),
  )

  unite-Outcome :
      (rep first.0 == rep other.0) ≡ false
      → (d3 : OrderedDict Text Text) → union d2 first.0 other.0 ≡ some d3
      → SameKeys s.parent d3
      → Outcome key first others
          (record { parent = d3; decisions = s.decisions ++ decision_on key first other ∷ [] })
          (joined rep first.0 other.0)
      → Outcome key first (other ∷ others) s rep
  unfolding merge_claims
  unite-Outcome two d3 made kept (s', done, (forest', same', added)) = (
    s',
    rw (found, found2, two, made, merge_claims) done,
    rw (two, if◌then◌else◌)
        (
          forest',
          λ x. ground (arith, kept x, same' x),
          added ∙ append_assoc s.decisions (decision_on key first other ∷ []) _,
        ),
  )

  next-Outcome :
      IsForest d2 rep
      → SameKeys s.parent d2
      → is_key first.0 s.parent ≡ true
      → KeysOf (other ∷ others) s.parent
      → Ends key first others
      → Outcome key first (other ∷ others) s rep
  next-Outcome forest kept h hs ends = elim (Bool-cases (rep first.0 == rep other.0)) [
    | inl one ↦ skip-Outcome kept one (
        ends (record s { parent = d2 }) rep forest (ground (arith, kept first.0))
          (λ c among. ground (arith, kept c.0, hs c (inr among))))
    | inr two ↦
        let (d3, made, forest3, same3) =
          union_lem d2 rep first.0 other.0 forest (ground (arith, kept first.0))
            (ground (arith, kept other.0, hs other (inl refl))) in
        let kept3 : SameKeys s.parent d3 = λ x. same3 x ∙ kept x in
        unite-Outcome two d3 made kept3 (
          ends (record { parent = d3; decisions = s.decisions ++ decision_on key first other ∷ [] })
            (joined rep first.0 other.0) forest3 (kept3 first.0 ∙ h)
            (λ c among. kept3 c.0 ∙ hs c (inr among)))
  ]

pub merge_claims_lem : (key : Text) (first : Claim) (others : List Claim) → Ends key first others
unfolding merge_claims
merge_claims_lem key first [] s rep forest h hs =
    (s, refl, (forest, λ x. refl, sym (append-nil s.decisions)))
merge_claims_lem key first (other ∷ others) s rep forest h hs =
    let (d1, found, forest1, same1) = find_lem s.parent rep first.0 forest in
    let (d2, found2, forest2, same2) = find_lem d1 rep other.0 forest1 in
    next-Outcome key first other others s rep found found2 forest2 (λ x. same2 x ∙ same1 x) h hs
      (merge_claims_lem key first others)
