-- ===== src/Collectors/Cycle/Approval.antt =====
-- collectors.py: which targets a cycle contacts.
use codexnet.Collectors.Attempts.{
  start_run, CollectorRequest, RepositoryCall, CollectorRunSummary, run_one,
}
use codexnet.Prelude.{
  sym, ◌∙◌, ◌⊎◌, ap, ℕ, ◌+◌, ◌≤◌, ◌≡◌, refl, true, false, some, List, [], ◌∷◌, ◌++◌, arith, inl,
  inr, Option-cases,
}
use mathlib.Core.Path.{subst}
use codexnet.Prelude.Result.{ok, Result-cases}
use codexnet.Prelude.Text.{Text}
use codexnet.Collectors.Cycle.{
  IpNetwork, IpLibrary, subnet_of, any_subnet, approved_networks, approve_network, approve_target,
  approve_requests, Task, run_tasks, run,
}

module _ (lib : IpLibrary) where
  -- Every address of the network lies in the network of one of the ranges.
  pub record Inside (requested : IpNetwork) (ranges : List Text) : Type 0 where
    pub before : List Text
    pub value : Text
    pub after : List Text
    pub listed : ranges ≡ before ++ value ∷ after
    pub range : IpNetwork
    pub parsed : lib.ip_network true value ≡ some range
    pub version : requested.version ≡ range.version
    pub above : range.network_address ≤ requested.network_address
    pub below : requested.broadcast_address ≤ range.broadcast_address

  Inside-later :
      (requested : IpNetwork) (value : Text) (ranges : List Text)
      → Inside requested ranges
      → Inside requested (value ∷ ranges)
  Inside-later requested value ranges i = record {
    before = value ∷ i.before;
    value = i.value;
    after = i.after;
    listed = ap (λ l. value ∷ l) i.listed;
    range = i.range;
    parsed = i.parsed;
    version = i.version;
    above = i.above;
    below = i.below;
  }

  approved_networks_inv :
      (value : Text) (ranges : List Text) (networks : List IpNetwork)
      → approved_networks lib (value ∷ ranges) ≡ ok networks
      → (network : IpNetwork) × (rest : List IpNetwork) × (lib.ip_network true value ≡ some network)
        × (approved_networks lib ranges ≡ ok rest)
        × (networks ≡ network ∷ rest)
  unfolding approved_networks
  approved_networks_inv value ranges networks h = elim (Option-cases (lib.ip_network true value)) [
    | inl bad ↦ absurd (ground arith)
    | inr (network, parsed) ↦ elim (Result-cases (approved_networks lib ranges)) [
      | inr (e, failed) ↦ absurd (ground arith)
      | inl (rest, others) ↦ (network, rest, parsed, others, ground arith)
    ]
  ]

  any_subnet-Inside :
      (requested : IpNetwork) (ranges : List Text) (networks : List IpNetwork)
      → approved_networks lib ranges ≡ ok networks
      → any_subnet requested networks ≡ ok true
      → Inside requested ranges
  unfolding any_subnet subnet_of
  any_subnet-Inside requested [] networks h inside =
      let empty : networks ≡ [] = unfold approved_networks in ground arith in
      absurd (ground (arith, ap (λ l. any_subnet requested l) empty))
  any_subnet-Inside requested (value ∷ ranges) networks h inside =
      let (network, rest, parsed, others, made) = approved_networks_inv value ranges networks h in
      let found : any_subnet requested (network ∷ rest) ≡ ok true =
        ap (λ l. any_subnet requested l) (sym made) ∙ inside in
      elim (Result-cases (subnet_of requested network)) [
        | inr (e, failed) ↦ absurd (ground (arith, found))
        | inl (true, agreed) ↦ record {
          before = [];
          value = value;
          after = ranges;
          listed = refl;
          range = network;
          parsed = parsed;
          version = ground arith;
          above = ground arith;
          below = ground arith;
        }
        | inl (false, refused) ↦
            Inside-later requested value ranges
              (any_subnet-Inside requested ranges rest others (ground (arith, found)))
      ]

  -- What an approved target stands for.
  pub record Approved (target : Text) (ranges : List Text) (text : Text) : Type 0 where
    pub requested : IpNetwork
    pub parsed : lib.ip_network false target ≡ some requested
    pub version : requested.version ≡ 4
    pub inside : Inside requested ranges
    pub canonical : (text ≡ lib.network_text requested) ⊎ (text ≡ lib.address_text requested)

  -- A target is approved only if it parses as an IPv4 network all of whose addresses lie in one of
  -- the approved ranges, and the approved text is the library's text of that network or of its
  -- address.
  pub approve_target-Approved :
      (target : Text) (ranges : List Text) (text : Text)
      → approve_target lib target ranges ≡ ok text
      → Approved target ranges text
  unfolding approve_target approve_network
  approve_target-Approved target ranges text h = elim (Option-cases (lib.ip_network false target)) [
    | inl bad ↦ absurd (ground arith)
    | inr (requested, parsed) ↦ elim (Result-cases (approved_networks lib ranges)) [
      | inr (e, failed) ↦ absurd (ground arith)
      | inl (networks, approved) ↦ elim (Result-cases (any_subnet requested networks)) [
        | inr (e, failed) ↦ absurd (ground arith)
        | inl (true, agreed) ↦ record {
          requested = requested;
          parsed = parsed;
          version = ground arith;
          inside = any_subnet-Inside requested ranges networks approved agreed;
          canonical = ground arith;
        }
        | inl (false, refused) ↦ absurd (ground arith)
      ]
    ]
  ]

module _ {C : Type 0} (lib : IpLibrary) (ranges : List Text) where
  -- The run of a request is of its collector, its target is what the request's own was approved as,
  -- inside one of the ranges, and the repository learns of both first.
  pub record Contacted (r : CollectorRequest C)
      (outcome : List RepositoryCall × CollectorRunSummary) : Type 0 where
    pub approved : Approved lib r.target ranges outcome.1.target
    pub agreed : approve_target lib r.target ranges ≡ ok outcome.1.target
    pub collector : outcome.1.collector ≡ r.collector
    pub calls : List RepositoryCall
    pub starts : outcome.0 ≡ start_run r.collector outcome.1.target ∷ calls

  -- One run for each request, in the order of the requests.
  abbrev pub EachContacted :
      List (CollectorRequest C) → List (List RepositoryCall × CollectorRunSummary) → Type 0
  EachContacted [] [] = Unit
  EachContacted [] (o ∷ os) = ⊥
  EachContacted (r ∷ rs) [] = ⊥
  EachContacted (r ∷ rs) (o ∷ os) = Contacted r o × EachContacted rs os

  approve_requests-inv :
      (r : CollectorRequest C) (rs approved : List (CollectorRequest C))
      → approve_requests lib ranges (r ∷ rs) ≡ ok approved
      → (target : Text) × (rest : List (CollectorRequest C)) × (approve_target lib r.target ranges
          ≡ ok target)
        × (approve_requests lib ranges rs ≡ ok rest)
        × (approved ≡ record r { target = target } ∷ rest)
  unfolding approve_requests
  approve_requests-inv r rs approved h = elim (Result-cases (approve_target lib r.target ranges)) [
    | inr (e, failed) ↦ absurd (ground arith)
    | inl (target, cleared) ↦ elim (Result-cases (approve_requests lib ranges rs)) [
      | inr (e, failed) ↦ absurd (ground arith)
      | inl (rest, others) ↦ (target, rest, cleared, others, ground arith)
    ]
  ]

  run_tasks-EachContacted :
      (retries : ℕ) (tasks : ℕ → Task) (i : ℕ) (requests approved : List (CollectorRequest C))
      → approve_requests lib ranges requests ≡ ok approved
      → EachContacted requests (run_tasks retries tasks i approved)
  unfolding run_tasks run_one
  run_tasks-EachContacted retries tasks i [] approved h =
      let empty : approved ≡ [] = unfold approve_requests in ground arith in
      subst (λ l. EachContacted [] (run_tasks retries tasks i l)) (sym empty) tt
  run_tasks-EachContacted retries tasks i (r ∷ rs) approved h =
      let (target, rest, cleared, others, made) = approve_requests-inv r rs approved h in
      subst (λ l. EachContacted (r ∷ rs) (run_tasks retries tasks i l)) (sym made)
        (
          record {
            approved = approve_target-Approved lib r.target ranges target cleared;
            agreed = cleared;
            collector = refl;
            calls = _;
            starts = refl;
          },
          run_tasks-EachContacted retries tasks (i + 1) rs rest others,
        )

  -- A cycle that starts runs has exactly one for each request, in the order of the requests. Each
  -- is of the request's collector, its target is the text that the request's own target was
  -- approved as, which parses as an IPv4 network all of whose addresses lie in one of the approved
  -- ranges, and the repository is told of the collector and this target first.
  pub run-EachContacted :
      (retries : ℕ) (tasks : ℕ → Task) (collectors : List Text)
      (requests : List (CollectorRequest C))
      (outcomes : List (List RepositoryCall × CollectorRunSummary))
      → run lib ranges collectors retries tasks requests ≡ ok outcomes
      → EachContacted requests outcomes
  unfolding run
  run-EachContacted retries tasks collectors requests outcomes h =
      elim (Result-cases (approve_requests lib ranges requests)) [
        | inr (e, failed) ↦ absurd (ground arith)
        | inl (approved, cleared) ↦
            let made : outcomes ≡ run_tasks retries tasks 0 approved = ground arith in
            subst (EachContacted requests) (sym made)
              (run_tasks-EachContacted retries tasks 0 requests approved cleared)
      ]
