-- ===== src/Collectors/Attempts/Calls.antt =====
-- collectors.py, `_run_one`: what the repository is told of a run.
use codexnet.Prelude.{
  inr, inl, ℕ, zero, suc, ◌+◌, ◌≤◌, ◌≡◌, refl, Bool, true, false, List, [], ◌∷◌, ◌++◌, length,
  arith, map, ap, ◌∙◌, sym, append_assoc, append-nil, Bool-cases,
}
use codexnet.Prelude.Text.{Text, codes}
use codexnet.Collectors.Attempts.{
  CollectorIssue, CollectorRequest, CollectOutcome, timed_out, authentication_rejected, cancelled,
  temporary, collector_error, failed, collected, Attempt, RunState, fresh_run, issue, record_issue,
  record_issues, take_result, settle, attempted, attempt_loop, is_temporary, RepositoryCall,
  start_run, finish_run, record_collector_error, CollectorRunSummary, errors_recorded, run_state,
  run_one,
}
use codexnet.Collectors.Attempts.Outcome.{run_state_bounded}

-- The issues of one attempt: those that its collector returned, or the one that its exception makes.
abbrev pub issues_of : CollectOutcome → List CollectorIssue
issues_of timed_out = issue (codes "timeout") (codes "collector timed out") true ∷ []
issues_of authentication_rejected =
    issue (codes "authentication") (codes "referenced credential was rejected") false ∷ []
issues_of (temporary text) = issue (codes "transport") text true ∷ []
issues_of (collector_error text) = issue (codes "collector") text false ∷ []
issues_of (failed text) = issue (codes "collector_failure") text false ∷ []
issues_of (collected r) = r.issues
issues_of cancelled = []

-- The issues of so many attempts from the first one on, in their order.
abbrev pub issues_upto : (ℕ → Attempt) → ℕ → List CollectorIssue
issues_upto env zero = []
issues_upto env (suc n) = issues_upto env n ++ issues_of (env n).outcome

issues_upto-next :
    (env : ℕ → Attempt) (n : ℕ)
    → issues_upto env (n + 1) ≡ issues_upto env n ++ issues_of (env n).outcome
issues_upto-next env n = let next : n + 1 ≡ suc n = omega arith in ap (issues_upto env) next

record_issues_lem :
    (is : List CollectorIssue) (s : RunState)
    → ((record_issues is s).recorded ≡ s.recorded ++ is)
      × ((record_issues is s).attempts ≡ s.attempts)
unfolding record_issues record_issue
record_issues_lem [] s = (sym (append-nil s.recorded), refl)
record_issues_lem (i ∷ is) s =
    let (all, same) = record_issues_lem is (record_issue i s) in
    (all ∙ append_assoc s.recorded (i ∷ []) is, same)

settle_lem :
    (o : CollectOutcome) (s : RunState)
    → ((settle o s).recorded ≡ s.recorded ++ issues_of o) × ((settle o s).attempts ≡ s.attempts)
unfolding settle record_issue take_result
settle_lem timed_out s = (refl, refl)
settle_lem authentication_rejected s = (refl, refl)
settle_lem (temporary text) s = (refl, refl)
settle_lem (collector_error text) s = (refl, refl)
settle_lem (failed text) s = (refl, refl)
settle_lem (collected r) s = record_issues_lem r.issues (record s { item_count = r.item_count })
settle_lem cancelled s = (sym (append-nil s.recorded), refl)

module _ (env : ℕ → Attempt) where
  -- What is recorded are the issues of the attempts that are counted.
  abbrev IsTold : RunState → Type 0
  IsTold s = s.recorded ≡ issues_upto env s.attempts

  attempted-IsTold :
      (attempt : ℕ) (s : RunState)
      → s.attempts ≡ attempt
      → IsTold s
      → IsTold (attempted (env attempt) attempt s)
        × ((attempted (env attempt) attempt s).attempts ≡ attempt + 1)
  attempted-IsTold attempt s at told =
      let (more, same) = settle_lem (env attempt).outcome (record s { attempts = attempt + 1 }) in
      let before : s.recorded ≡ issues_upto env attempt = told ∙ ap (issues_upto env) at in
      (
        more
            ∙ ap (λ l. l ++ issues_of (env attempt).outcome) before
            ∙ sym (issues_upto-next env attempt)
            ∙ ap (issues_upto env) (sym same),
        same,
      )

  attempt_loop-IsTold :
      (left attempt : ℕ) (s : RunState)
      → s.attempts ≡ attempt
      → IsTold s
      → IsTold (attempt_loop env left attempt s).0
  unfolding attempt_loop
  attempt_loop-IsTold zero attempt s at told = elim (Bool-cases (env attempt).stopped) [
    | inl halt ↦ rw halt told
    | inr on ↦ rw on (attempted-IsTold attempt s at told).0
  ]
  attempt_loop-IsTold (suc left) attempt s at told =
      let (told', at') = attempted-IsTold attempt s at told in
      elim (Bool-cases (env attempt).stopped) [
        | inl halt ↦ rw (halt, attempt_loop) told
        | inr on ↦ elim (Bool-cases (is_temporary (env attempt).outcome)) [
          | inr final ↦ rw (on, final, attempt_loop) told'
          | inl again ↦ elim (Bool-cases (env attempt).sleep_cancelled) [
            | inl cut ↦ rw (on, again, cut, attempt_loop) told'
            | inr slept ↦
                rw (on, again, slept, attempt_loop)
                  (attempt_loop-IsTold left (attempt + 1) (attempted (env attempt) attempt s) at'
                    told')
          ]
        ]
      ]

  run_state-IsTold : (retries : ℕ) (admitted : Bool) → IsTold (run_state retries admitted env)
  unfolding run_state
  run_state-IsTold retries false = refl
  run_state-IsTold retries true =
      let told = attempt_loop-IsTold retries 0 fresh_run refl refl in
      elim (Bool-cases (attempt_loop env retries 0 fresh_run).1) [
        | inl done ↦ rw (done, run_state) told
        | inr cut ↦ rw (cut, run_state) told
      ]

errors_recorded_lem :
    (run_id : ℕ) (source : Text) (is : List CollectorIssue)
    → errors_recorded run_id source is ≡ map (λ i. record_collector_error run_id i source) is
errors_recorded_lem run_id source [] = refl
errors_recorded_lem run_id source (i ∷ is) =
    ap (λ l. record_collector_error run_id i source ∷ l) (errors_recorded_lem run_id source is)

-- What the repository is told of a run with this summary and these issues, in order: its start, the
-- issues under the run's number and the collector's name, and its end with the summary's status
-- and items.
abbrev pub told_of : CollectorRunSummary → List CollectorIssue → List RepositoryCall
told_of summary issues =
    start_run summary.collector summary.target
      ∷ map (λ i. record_collector_error summary.run_id i summary.collector) issues
    ++ finish_run summary.run_id summary.status summary.item_count ∷ []

-- However its attempts end, a run tells the repository, in this order, of its start, of exactly the
-- issues of the attempts that its summary counts, each under the run's number and collector, and of
-- its end with the summary's status and items. The summary is of the run and the request, counts
-- as many errors as these issues, and at most one attempt more than the retries.
pub run_one_tells :
    {C : Type 0} (retries run_id : ℕ) (admitted : Bool) (env : ℕ → Attempt)
    (request : CollectorRequest C)
    → let run = run_one retries run_id admitted env request in
      let issues = issues_upto env run.1.attempts in
      (run.0 ≡ told_of run.1 issues)
      × (run.1.error_count ≡ length issues)
      × (run.1.run_id ≡ run_id)
      × (run.1.collector ≡ request.collector)
      × (run.1.target ≡ request.target)
      × (run.1.attempts ≤ retries + 1)
unfolding run_one
run_one_tells retries run_id admitted env request =
    let s = run_state retries admitted env in
    let (few, counted) = run_state_bounded retries admitted env in
    let told = run_state-IsTold env retries admitted in
    (
      ap
          (λ l.
            start_run request.collector request.target ∷ l
            ++ finish_run run_id s.status s.item_count ∷ [])
          (errors_recorded_lem run_id request.collector s.recorded
            ∙ ap (map (λ i. record_collector_error run_id i request.collector)) told),
      counted ∙ ap (λ l. length l) told,
      refl,
      refl,
      refl,
      few,
    )
