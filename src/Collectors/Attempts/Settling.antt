-- ===== src/Collectors/Attempts/Settling.antt =====
-- collectors.py, `_run_one`: what one attempt leaves of a run.
use codexnet.Prelude.{
  ◌⊎◌, ◌∙◌, ℕ, ◌≡◌, refl, sym, true, false, List, [], ◌∷◌, length, arith, inl, inr, length-append,
}
use codexnet.Collectors.Attempts.{
  codes, issue, CollectorIssue, CollectOutcome, timed_out, authentication_rejected, cancelled,
  temporary, collector_error, failed, collected, Status, failed_run, RunState, record_issue,
  record_issues, take_result, settle, status_of, is_temporary, is_cancelled,
}
use codexnet.Prelude.Text.{codes}

-- The status and the count of items that an outcome ends a run with.
abbrev pub final_status : CollectOutcome → Status
final_status (collected r) = status_of r.issues
final_status _ = failed_run

abbrev pub final_items : CollectOutcome → ℕ
final_items (collected r) = r.item_count
final_items _ = 0

-- A run that has no result yet.
pub record Pending (s : RunState) : Type 0 where
  pub status : s.status ≡ failed_run
  pub items : s.item_count ≡ 0
  pub counted : s.errors ≡ length s.recorded

record Issued (s t : RunState) : Type 0 where
  attempts : t.attempts ≡ s.attempts
  items : t.item_count ≡ s.item_count
  counted : s.errors ≡ length s.recorded → t.errors ≡ length t.recorded

record_issue-Issued : (i : CollectorIssue) (s : RunState) → Issued s (record_issue i s)
unfolding record_issue
record_issue-Issued i s = record {
  attempts = refl;
  items = refl;
  counted = λ h. omega (arith, h, length-append s.recorded (i ∷ []));
}

record_issues-Issued : (is : List CollectorIssue) (s : RunState) → Issued s (record_issues is s)
unfolding record_issues
record_issues-Issued [] s = record { attempts = refl; items = refl; counted = λ h. h }
record_issues-Issued (i ∷ is) s =
    let one = record_issue-Issued i s in
    let more = record_issues-Issued is (record_issue i s) in
    record {
      attempts = more.attempts ∙ one.attempts;
      items = more.items ∙ one.items;
      counted = λ h. more.counted (one.counted h);
    }

-- What an attempt leaves of a pending run.
pub record Attempted (o : CollectOutcome) (n : ℕ) (t : RunState) : Type 0 where
  pub attempts : t.attempts ≡ n
  pub status : t.status ≡ final_status o
  pub items : t.item_count ≡ final_items o
  pub counted : t.errors ≡ length t.recorded

record_issue-status : (i : CollectorIssue) (s : RunState) → (record_issue i s).status ≡ s.status
unfolding record_issue
record_issue-status i s = refl

one_issue :
    (o : CollectOutcome) (i : CollectorIssue) (s : RunState)
    → final_status o ≡ failed_run
    → final_items o ≡ 0
    → Pending s
    → Attempted o s.attempts (record_issue i s)
one_issue o i s no_status no_items p =
    let issued = record_issue-Issued i s in
    record {
      attempts = issued.attempts;
      status = record_issue-status i s ∙ p.status ∙ sym no_status;
      items = issued.items ∙ p.items ∙ sym no_items;
      counted = issued.counted p.counted;
    }

pub settle-Attempted :
    (o : CollectOutcome) (s : RunState) → Pending s → Attempted o s.attempts (settle o s)
unfolding settle take_result
settle-Attempted timed_out s p =
    one_issue timed_out (issue (codes "timeout") (codes "collector timed out") true) s refl refl p
settle-Attempted authentication_rejected s p =
    one_issue authentication_rejected
      (issue (codes "authentication") (codes "referenced credential was rejected") false) s refl
      refl p
settle-Attempted (temporary text) s p =
    one_issue (temporary text) (issue (codes "transport") text true) s refl refl p
settle-Attempted (collector_error text) s p =
    one_issue (collector_error text) (issue (codes "collector") text false) s refl refl p
settle-Attempted (failed text) s p =
    one_issue (failed text) (issue (codes "collector_failure") text false) s refl refl p
settle-Attempted cancelled s p = record {
  attempts = refl;
  status = p.status;
  items = p.items;
  counted = p.counted;
}
settle-Attempted (collected r) s p =
    let issued = record_issues-Issued r.issues (record s { item_count = r.item_count }) in
    record {
      attempts = issued.attempts;
      status = refl;
      items = issued.items;
      counted = issued.counted p.counted;
    }

pub settle-Pending :
    (o : CollectOutcome) (s : RunState) → is_temporary o ≡ true → Pending s → Pending (settle o s)
settle-Pending timed_out s temp p =
    let a = settle-Attempted timed_out s p in
    record { status = a.status; items = a.items; counted = a.counted }
settle-Pending (temporary text) s temp p =
    let a = settle-Attempted (temporary text) s p in
    record { status = a.status; items = a.items; counted = a.counted }
settle-Pending authentication_rejected s temp p = cc
settle-Pending (collector_error text) s temp p = cc
settle-Pending (failed text) s temp p = cc
settle-Pending cancelled s temp p = cc
settle-Pending (collected r) s temp p = cc

pub no_items :
    (o : CollectOutcome) → (is_cancelled o ≡ true) ⊎ (is_temporary o ≡ true) → final_items o ≡ 0
no_items timed_out h = refl
no_items authentication_rejected h = refl
no_items (temporary text) h = refl
no_items (collector_error text) h = refl
no_items (failed text) h = refl
no_items cancelled h = refl
no_items (collected r) (inl h) = cc
no_items (collected r) (inr h) = cc
