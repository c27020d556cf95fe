-- ===== src/Collectors/Examples.antt =====
-- collectors.py: a run with one retry, and a cycle of one request.
use codexnet.Prelude.{
  if◌then◌else◌, ℕ, zero, suc, ◌≤◌, ◌≡◌, ◌≢◌, refl, Bool, true, false, Option, none, some, List, [],
  ◌∷◌, length,
}
use codexnet.Prelude.Keys.{list_eq, list_beq, nat_eq}
use codexnet.Prelude.Result.{ok}
use codexnet.Prelude.Text.{Text, codes}
use codexnet.Collectors.Attempts.{
  CollectorRequest, Attempt, timed_out, collected, cancelled_run, RepositoryCall,
  CollectorRunSummary, record_issue, record_issues, take_result, settle, attempt_loop, run_state,
  run_one,
}
use codexnet.Collectors.Attempts.Outcome.{Settled, run_state-Settled}
use codexnet.Collectors.Attempts.Calls.{told_of, issues_upto, run_one_tells}
use codexnet.Collectors.Cycle.{
  IpNetwork, IpLibrary, subnet_of, any_subnet, approved_networks, approve_network, approve_target,
  approve_requests, Task, check_registered, run_tasks, run,
}
use codexnet.Collectors.Cycle.Approval.{EachContacted, run-EachContacted}

-- a timeout, then a result of two items
abbrev env : ℕ → Attempt
env zero = record { stopped = false; outcome = timed_out; sleep_cancelled = false }
env (suc n) = record {
  stopped = false;
  outcome = collected (record { item_count = 2; issues = [] });
  sleep_cancelled = false;
}

-- one host and one range
abbrev parse : Bool → Text → Option IpNetwork
parse strict text =
    if list_beq text (codes "10.0.0.9")
    then some (record { version = 4; network_address = 9; broadcast_address = 9 })
    else if list_beq text (codes "10.0.0.0/24")
    then some (record { version = 4; network_address = 0; broadcast_address = 255 })
    else none

abbrev lib : IpLibrary
lib = record {
  ip_network = parse;
  address_text = λ n. codes "10.0.0.9";
  network_text = λ n. codes "10.0.0.0/24";
}

abbrev ranges : List Text
ranges = codes "10.0.0.0/24" ∷ []

abbrev request : CollectorRequest ℕ
request = record { collector = codes "snmp"; target = codes "10.0.0.9"; credential_ref = none }

abbrev tasks : ℕ → Task
tasks i = record { run_id = i; admitted = true; attempts = env }

-- What the runs below compute with.
program : Unit {0}
unfolding list_beq record_issue record_issues take_result settle attempt_loop run_state run_one
    subnet_of any_subnet approved_networks approve_network approve_target approve_requests
    check_registered run_tasks run
program = tt

ends : (run_state 1 true env).status ≢ cancelled_run
unfolding program
ends h = cc

run_state-Settled_example : Settled env 0 1 (run_state 1 true env)
run_state-Settled_example = run_state-Settled 1 true env ends

approves : approve_target lib (codes "10.0.0.9") ranges ≡ ok (codes "10.0.0.9")
unfolding program
approves = refl

abbrev outcomes : List (List RepositoryCall × CollectorRunSummary)
outcomes = run_tasks 1 tasks 0 (request ∷ [])

runs : run lib ranges (codes "snmp" ∷ []) 1 tasks (request ∷ []) ≡ ok outcomes
unfolding program
runs = refl

run-EachContacted_example : EachContacted lib ranges (request ∷ []) outcomes
run-EachContacted_example =
    run-EachContacted lib ranges 1 tasks (codes "snmp" ∷ []) (request ∷ []) outcomes runs

run_one_tells_example :
    let run = run_one 1 5 true env request in
    let issues = issues_upto env run.1.attempts in
    (run.0 ≡ told_of run.1 issues)
    × (run.1.error_count ≡ length issues)
    × (run.1.run_id ≡ 5)
    × (run.1.collector ≡ request.collector)
    × (run.1.target ≡ request.target)
    × (run.1.attempts ≤ 2)
run_one_tells_example = run_one_tells 1 5 true env request
