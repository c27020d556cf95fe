-- ===== src/Collectors/Cycle.antt =====
-- collectors.py: `approve_target` and `CollectorOrchestrator.run`.
pub mod Approval
use codexnet.Prelude.{
  ℕ, ◌≡◌, Bool, true, false, not, ◌&&◌, Option, none, some, List, [], ◌∷◌, any, leb, nat_beq,
  if◌then◌else◌, ◌+◌,
}
use codexnet.Prelude.Keys.{list_beq, nat_eq}
use codexnet.Prelude.Result.{Result, ok, err, ◌>>=◌, ◌>>◌, raise_if}
use codexnet.Prelude.Text.{Text}
use codexnet.Collectors.Attempts.{
  CollectorRequest, Attempt, RepositoryCall, CollectorRunSummary, run_one,
}

-- What the module raises before a run is started: TargetApprovalError three times,
-- UnknownCollectorError, and the ValueError and TypeError of `ipaddress` on a bad approved range.
pub data CollectorsError : Type 0 where
  not_a_network not_ipv4 outside_ranges unknown_collector bad_range mixed_versions : CollectorsError

-- An `ipaddress` network: its version, and its first and last address as numbers.
pub record IpNetwork : Type 0 where
  pub version : ℕ
  pub network_address : ℕ
  pub broadcast_address : ℕ

-- The parser and the printers of `ipaddress`: `ip_network(text, strict=...)`, `str` of the network
-- address and `str` of the network.
pub record IpLibrary : Type 0 where
  pub ip_network : Bool → Text → Option IpNetwork
  pub address_text : IpNetwork → Text
  pub network_text : IpNetwork → Text

-- requested.subnet_of(network), which raises for networks of two versions
unfoldable pub subnet_of : IpNetwork → IpNetwork → Result CollectorsError Bool
subnet_of requested network =
    if nat_beq requested.version network.version
    then ok (
        leb network.network_address requested.network_address
        && leb requested.broadcast_address network.broadcast_address)
    else err mixed_versions

-- any(requested.subnet_of(network) for network in approved)
unfoldable pub any_subnet : IpNetwork → List IpNetwork → Result CollectorsError Bool
any_subnet requested [] = ok false
any_subnet requested (network ∷ networks) = do
  inside ← subnet_of requested network
  let rest = any_subnet requested networks
  if inside then ok true else rest

module _ (lib : IpLibrary) where
  unfoldable pub approved_networks : List Text → Result CollectorsError (List IpNetwork)
  approved_networks [] = ok []
  approved_networks (value ∷ values) =
      let rest = approved_networks values in
      elim (lib.ip_network true value) [
        | none ↦ err bad_range
        | some network ↦ do networks ← rest; ok (network ∷ networks)
      ]

  -- The checks behind the parsing of the target.
  unfoldable pub approve_network : IpNetwork → Text → List Text → Result CollectorsError Text
  approve_network requested target approved_ranges = do
    raise_if (not (nat_beq requested.version 4)) not_ipv4
    approved ← approved_networks approved_ranges
    inside ← any_subnet requested approved
    raise_if (not inside) outside_ranges
    ok (
        if any (λ c. nat_beq c b'/') target
        then lib.network_text requested
        else lib.address_text requested)

  unfoldable pub approve_target : Text → List Text → Result CollectorsError Text
  approve_target target approved_ranges = elim (lib.ip_network false target) [
    | none ↦ err not_a_network
    | some requested ↦ approve_network requested target approved_ranges
  ]

  -- The tuple of the approved requests.
  unfoldable pub approve_requests :
      {C : Type 0}
      → List Text
      → List (CollectorRequest C)
      → Result CollectorsError (List (CollectorRequest C))
  approve_requests ranges [] = ok []
  approve_requests ranges (r ∷ rs) = do
    target ← approve_target r.target ranges
    rest ← approve_requests ranges rs
    ok (record r { target = target } ∷ rest)

-- The environment of one task: the run's id, whether its wait for the semaphore ends, and its
-- attempts.
pub record Task : Type 0 where
  pub run_id : ℕ
  pub admitted : Bool
  pub attempts : ℕ → Attempt

unfoldable pub check_registered :
    {C : Type 0} → List Text → List (CollectorRequest C) → Result CollectorsError (Unit {0})
check_registered collectors [] = ok tt
check_registered collectors (r ∷ rs) = do
  raise_if (not (any (λ name. list_beq name r.collector) collectors)) unknown_collector
  check_registered collectors rs

-- The gathered tasks, the results in the order of the requests; `tasks` gives the environment of
-- the request at each index.
unfoldable pub run_tasks :
    {C : Type 0}
    → ℕ
    → (ℕ → Task)
    → ℕ
    → List (CollectorRequest C)
    → List (List RepositoryCall × CollectorRunSummary)
run_tasks retries tasks i [] = []
run_tasks retries tasks i (r ∷ rs) =
    let task = tasks i in
    run_one retries task.run_id task.admitted task.attempts r ∷ run_tasks retries tasks (i + 1) rs

-- CollectorOrchestrator.run
unfoldable pub run :
    {C : Type 0}
    → IpLibrary
    → List Text
    → List Text
    → ℕ
    → (ℕ → Task)
    → List (CollectorRequest C)
    → Result CollectorsError (List (List RepositoryCall × CollectorRunSummary))
run lib ranges collectors retries tasks requests = do
  approved ← approve_requests lib ranges requests
  check_registered collectors approved
  ok (run_tasks retries tasks 0 approved)
