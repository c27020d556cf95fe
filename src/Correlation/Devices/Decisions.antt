-- ===== src/Correlation/Devices/Decisions.antt =====
-- Every decision of a result has its evidence.
use codexnet.Prelude.Order.{list_order, nat_order, pair_order}
use codexnet.Correlation.Devices.{
  if◌then◌else◌, min, List, OrderedDict, Text, correlate, decision_sort_key,
}
use codexnet.Prelude.{if◌then◌else◌, sym, Bool-cases, min, refl, ◌≡◌, List, inl, inr, true, [], ◌∷◌}
use codexnet.Prelude.Keys.{◌==◌, nat_eq, list_eq}
use codexnet.Prelude.Sorting.{Among-append, Among-sort_by, Among}
use mathlib.Core.Path.{subst}
use codexnet.OrderedDict.Groups.{entry}
use codexnet.OrderedDict.{OrderedDict}
use codexnet.Prelude.Text.{Text}
use codexnet.Prelude.Result.{ok}
use codexnet.Correlation.UnionFind.Union.{joined}
use codexnet.Correlation.UnionFind.Linked.{joins}
use codexnet.Correlation.Identity.{Platform}
use codexnet.Correlation.Evidence.{
  DeviceObservation, CorrelationDecision, IdentityEvidence, CorrelationResult, evidence_key_of,
}
use codexnet.Correlation.Merge.{Claim, claims_of, is_stable}
use codexnet.Correlation.Merge.Claims.{decided, decision_on}
use codexnet.Correlation.Merge.Rounds.{decisions_of, sorted_claims, claim_decisions, claim_pairs}
use codexnet.Correlation.Merge.Sharing.{index_of, all_keys, Among-sorted_claims}
use codexnet.Correlation.Merge.Identified.{Carries, Claimed-Carries}
use codexnet.Correlation.Devices.Runs.{sorted_observations, all_decisions}
use codexnet.Correlation.Devices.Components.{correlate-IsRun}

decided_sound :
    (rep : Text → Text) (key : Text) (first : Claim) (others : List Claim) (x : CorrelationDecision)
    → Among x (decided rep key first others)
    → (o : Claim) × Among o others × (x ≡ decision_on key first o)
decided_sound rep key first [] x h = absurd h
decided_sound rep key first (other ∷ others) x h = elim (Bool-cases (rep first.0 == rep other.0)) [
  | inl one ↦
      let (o, among, at) = decided_sound rep key first others x (rw (one, if◌then◌else◌) at h) in
      (o, inr among, at)
  | inr two ↦ elim (rw (two, if◌then◌else◌) at h) [
    | inl here ↦ (other, inl refl, here)
    | inr there ↦
        let (o, among, at) = decided_sound (joined rep first.0 other.0) key first others x there in
        (o, inr among, at)
  ]
]

claimed_sound :
    (rep : Text → Text) (key : Text) (claims : List Claim) (x : CorrelationDecision)
    → Among x (claim_decisions rep key claims)
    → (c : Claim) × (d : Claim) × Among c claims × Among d claims × (x ≡ decision_on key c d)
claimed_sound rep key [] x h = absurd h
claimed_sound rep key (first ∷ others) x h =
    let (o, among, at) = decided_sound rep key first others x h in
    (first, o, inl refl, inr among, at)

decisions_sound :
    (index : OrderedDict Text (List Claim)) (rep : Text → Text) (keys' : List Text)
    (x : CorrelationDecision)
    → Among x (decisions_of index rep keys')
    → (key : Text) × (c : Claim) × (d : Claim) × Among c (sorted_claims (entry key index))
      × Among d (sorted_claims (entry key index))
      × (x ≡ decision_on key c d)
decisions_sound index rep [] x h = absurd h
decisions_sound index rep (key ∷ rest) x h =
    let claims = sorted_claims (entry key index) in
    elim ((Among-append x (claim_decisions rep key claims) _).0 h) [
      | inl here ↦
          let (c, d, hc, hd, at) = claimed_sound rep key claims x here in (key, c, d, hc, hd, at)
      | inr there ↦ decisions_sound index (joins rep (claim_pairs claims)) rest x there
    ]

-- The evidence of a decision: each of its observations carries a stable identifier of sufficient
-- confidence, both of its key, and it has the smaller of their confidences.
abbrev pub IsEvident : Platform → List DeviceObservation → CorrelationDecision → Type 0
IsEvident p os x =
    (left : IdentityEvidence) × (right : IdentityEvidence) × Carries p os x.left_observation_id left
    × Carries p os x.right_observation_id right
    × (is_stable p left ≡ true)
    × (is_stable p right ≡ true)
    × (evidence_key_of left ≡ x.evidence_key)
    × (evidence_key_of right ≡ x.evidence_key)
    × (x.confidence ≡ min left.confidence right.confidence)

-- Every decision of a result names two observations that carry a stable identifier of its key with
-- a confidence of at least the level, and its confidence is the smaller of the two.
pub decisions-IsEvident :
    (p : Platform) (observations : List DeviceObservation) (r : CorrelationResult)
    → correlate p observations ≡ ok r
    → (x : CorrelationDecision) → Among x r.decisions
    → IsEvident p (sorted_observations observations) x
decisions-IsEvident p observations r h x among =
    let (known, run) = correlate-IsRun p observations r h in
    let claims = claims_of p known in
    let sorted = sorted_observations observations in
    let made =
      (Among-sort_by decision_sort_key x (all_decisions p known)).0
        (subst (Among x) run.decisions_at among) in
    let (key, c, d, hc, hd, at) =
      decisions_sound (index_of claims) (λ u. u) (all_keys claims) x made in
    let (left, left_stable, left_key) =
      Claimed-Carries p sorted [] run.parents known run.loaded key c
        ((Among-sorted_claims claims key c).0 hc) in
    let (right, right_stable, right_key) =
      Claimed-Carries p sorted [] run.parents known run.loaded key d
        ((Among-sorted_claims claims key d).0 hd) in
    subst (IsEvident p sorted) (sym at)
      (c.1, d.1, left, right, left_stable, right_stable, left_key, right_key, refl)
