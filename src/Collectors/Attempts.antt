-- ===== src/Collectors/Attempts.antt =====
-- collectors.py, `CollectorOrchestrator._run_one`: attempts with bounded retries.
pub mod Settling
pub mod Outcome
pub mod Calls
use codexnet.Prelude.{
  not, ℕ, zero, suc, ◌+◌, Bool, true, false, Option, none, some, List, [], ◌∷◌, ◌++◌, length,
  if◌then◌else◌,
}
use codexnet.Prelude.Text.{Text, codes}

-- CollectorIssue
pub record CollectorIssue : Type 0 where
  pub category : Text
  pub detail : Text
  pub retryable : Bool

-- CollectorResult
pub record CollectorResult : Type 0 where
  pub item_count : ℕ
  pub issues : List CollectorIssue

-- CollectorRequest; `C` is the type of the credential references.
pub record CollectorRequest (C : Type 0) : Type 0 where
  pub collector : Text
  pub target : Text
  pub credential_ref : Option C

-- What `wait_for(collector.collect(...))` does. An exception's text is what `str(exc)` gives, and
-- for `failed` what the repository's redactor gives.
pub data CollectOutcome : Type 0 where
  timed_out authentication_rejected cancelled : CollectOutcome
  temporary collector_error failed : Text → CollectOutcome
  collected : CollectorResult → CollectOutcome

-- The environment of one attempt: whether the cycle is cancelled before it, what the collector does,
-- and whether the sleep behind it is cancelled.
pub record Attempt : Type 0 where
  pub stopped : Bool
  pub outcome : CollectOutcome
  pub sleep_cancelled : Bool

pub data Status : Type 0 where
  failed_run partial succeeded cancelled_run : Status

-- The local variables of `_run_one`, and the issues that `_record_issue` gave to the repository.
pub record RunState : Type 0 where
  pub attempts : ℕ
  pub errors : ℕ
  pub item_count : ℕ
  pub status : Status
  pub recorded : List CollectorIssue

abbrev pub fresh_run : RunState
fresh_run = record { attempts = 0; errors = 0; item_count = 0; status = failed_run; recorded = [] }

abbrev pub issue : Text → Text → Bool → CollectorIssue
issue category detail retryable = record {
  category = category;
  detail = detail;
  retryable = retryable;
}

-- errors += 1; self._record_issue(...)
unfoldable pub record_issue : CollectorIssue → RunState → RunState
record_issue i s = record s { errors = s.errors + 1; recorded = s.recorded ++ i ∷ [] }

unfoldable pub record_issues : List CollectorIssue → RunState → RunState
record_issues [] s = s
record_issues (i ∷ is) s = record_issues is (record_issue i s)

abbrev status_of : List CollectorIssue → Status
status_of [] = succeeded
status_of (i ∷ is) = partial

-- The `else` branch: the collector's result with its issues.
unfoldable pub take_result : CollectorResult → RunState → RunState
take_result r s = record (record_issues r.issues (record s { item_count = r.item_count })) {
  status = status_of r.issues;
}

-- What the branches of the `try` statement write.
unfoldable pub settle : CollectOutcome → RunState → RunState
settle timed_out s = record_issue (issue (codes "timeout") (codes "collector timed out") true) s
settle authentication_rejected s =
    record_issue (issue (codes "authentication") (codes "referenced credential was rejected") false)
      s
settle (temporary text) s = record_issue (issue (codes "transport") text true) s
settle (collector_error text) s = record_issue (issue (codes "collector") text false) s
settle (failed text) s = record_issue (issue (codes "collector_failure") text false) s
settle (collected r) s = take_result r s
settle cancelled s = s

-- The outcomes behind which the loop may go on.
abbrev pub is_temporary : CollectOutcome → Bool
is_temporary timed_out = true
is_temporary (temporary text) = true
is_temporary _ = false

abbrev pub is_cancelled : CollectOutcome → Bool
is_cancelled cancelled = true
is_cancelled _ = false

-- One attempt that is not refused: its number is counted before the collector is called.
abbrev pub attempted : Attempt → ℕ → RunState → RunState
attempted a attempt s = settle a.outcome (record s { attempts = attempt + 1 })

-- for attempt in range(self.retries + 1): `left` counts the attempts behind this one; `false` is the
-- `CancelledError` that leaves the loop.
unfoldable pub attempt_loop : (ℕ → Attempt) → ℕ → ℕ → RunState → RunState × Bool
attempt_loop env zero attempt s =
    let a = env attempt in
    if a.stopped then (s, false) else (attempted a attempt s, not (is_cancelled a.outcome))
attempt_loop env (suc left) attempt s =
    let a = env attempt in
    let again = attempt_loop env left (attempt + 1) (attempted a attempt s) in
    if a.stopped
    then (s, false)
    else if is_temporary a.outcome
    then (if a.sleep_cancelled then (attempted a attempt s, false) else again)
    else (attempted a attempt s, not (is_cancelled a.outcome))

-- CollectorRunSummary
pub record CollectorRunSummary : Type 0 where
  pub run_id : ℕ
  pub collector : Text
  pub target : Text
  pub status : Status
  pub attempts : ℕ
  pub item_count : ℕ
  pub error_count : ℕ

-- The calls of the repository.
pub data RepositoryCall : Type 0 where
  start_run : Text → Text → RepositoryCall
  record_collector_error : ℕ → CollectorIssue → Text → RepositoryCall
  finish_run : ℕ → Status → ℕ → RepositoryCall

abbrev pub errors_recorded : ℕ → Text → List CollectorIssue → List RepositoryCall
errors_recorded run_id source [] = []
errors_recorded run_id source (i ∷ is) =
    record_collector_error run_id i source ∷ errors_recorded run_id source is

-- The state behind the loop; a wait for the semaphore that is cancelled skips it.
unfoldable pub run_state : ℕ → Bool → (ℕ → Attempt) → RunState
run_state retries admitted env =
    let (s, done) = attempt_loop env retries 0 fresh_run in
    if not admitted
    then record fresh_run { status = cancelled_run }
    else if done
    then s
    else record s { status = cancelled_run }

-- _run_one: the calls of the repository in order, and the summary.
unfoldable pub run_one :
    {C : Type 0}
    → ℕ
    → ℕ
    → Bool
    → (ℕ → Attempt)
    → CollectorRequest C
    → List RepositoryCall × CollectorRunSummary
run_one retries run_id admitted env request =
    let s = run_state retries admitted env in
    (
      start_run request.collector request.target
            ∷ errors_recorded run_id request.collector s.recorded
          ++ finish_run run_id s.status s.item_count ∷ [],
      record {
        run_id = run_id;
        collector = request.collector;
        target = request.target;
        status = s.status;
        attempts = s.attempts;
        item_count = s.item_count;
        error_count = s.errors;
      },
    )
