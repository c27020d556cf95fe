-- ===== src/Collectors/Attempts/Outcome.antt =====
-- collectors.py, `_run_one`: how many attempts a run makes, and with which status it ends.
use codexnet.Prelude.{
  nat_beq_iff, nat_beq, ◌⊎◌, ◌∙◌, ℕ, zero, suc, ◌+◌, ◌≤◌, ◌<◌, ◌≡◌, ◌≢◌, refl, sym, Bool, true,
  false, not, length, arith, inl, inr, Bool-cases, if◌then◌else◌,
}
use codexnet.Collectors.Attempts.{
  Attempt, cancelled_run, RunState, fresh_run, is_temporary, is_cancelled, attempted, attempt_loop,
  run_state,
}
use mathlib.Core.Path.{subst}
use codexnet.Collectors.Attempts.Settling.{
  final_status, final_items, Pending, Attempted, settle-Attempted, settle-Pending, no_items,
}

-- A run that ended by itself: its last attempt is the first whose outcome is not temporary, or the
-- last that is allowed, and its status and items are that attempt's.
pub record Settled (env : ℕ → Attempt) (first limit : ℕ) (t : RunState) : Type 0 where
  pub last : ℕ
  pub from_first : first ≤ last
  pub to_limit : last ≤ limit
  pub attempts : t.attempts ≡ last + 1
  pub retried : (i : ℕ) → first ≤ i → i < last → is_temporary (env i).outcome ≡ true
  pub final : last < limit → is_temporary (env last).outcome ≡ false
  pub status : t.status ≡ final_status (env last).outcome
  pub items : t.item_count ≡ final_items (env last).outcome
  pub counted : t.errors ≡ length t.recorded

-- A run that was cancelled has no items.
record CutOff (limit : ℕ) (t : RunState) : Type 0 where
  few : t.attempts ≤ limit + 1
  items : t.item_count ≡ 0
  counted : t.errors ≡ length t.recorded

abbrev Ended : (ℕ → Attempt) → ℕ → ℕ → RunState × Bool → Type 0
Ended env first limit (t, true) = Settled env first limit t
Ended env first limit (t, false) = CutOff limit t

not_begun :
    (attempt limit : ℕ) (s : RunState)
    → s.attempts ≤ attempt
    → attempt ≤ limit
    → Pending s
    → CutOff limit s
not_begun attempt limit s few le p = record {
  few = omega (arith, few, le);
  items = p.items;
  counted = p.counted;
}

module _ (env : ℕ → Attempt) where
  -- An attempt on a run that has no result yet.
  attempted-Attempted :
      (attempt : ℕ) (s : RunState)
      → Pending s
      → Attempted (env attempt).outcome (attempt + 1) (attempted (env attempt) attempt s)
  attempted-Attempted attempt s p =
      settle-Attempted (env attempt).outcome (record s { attempts = attempt + 1 })
        (record { status = p.status; items = p.items; counted = p.counted })

  cut_here :
      (attempt limit : ℕ) (s : RunState)
      → attempt ≤ limit
      → (is_cancelled (env attempt).outcome ≡ true) ⊎ (is_temporary (env attempt).outcome ≡ true)
      → Pending s
      → CutOff limit (attempted (env attempt) attempt s)
  cut_here attempt limit s le how p =
      let a = attempted-Attempted attempt s p in
      record {
        few = omega (arith, a.attempts, le);
        items = a.items ∙ no_items (env attempt).outcome how;
        counted = a.counted;
      }

  Settled-here :
      (attempt limit : ℕ) (s : RunState)
      → attempt ≤ limit
      → (attempt < limit → is_temporary (env attempt).outcome ≡ false)
      → Pending s
      → Settled env attempt limit (attempted (env attempt) attempt s)
  Settled-here attempt limit s le final p =
      let numbered = record s { attempts = attempt + 1 } in
      let a =
        settle-Attempted (env attempt).outcome numbered
          (record { status = p.status; items = p.items; counted = p.counted }) in
      record {
        last = attempt;
        from_first = omega arith;
        to_limit = le;
        attempts = a.attempts;
        retried = λ i lo hi. absurd (omega arith);
        final = final;
        status = a.status;
        items = a.items;
        counted = a.counted;
      }

  Ended-here :
      (attempt limit : ℕ) (s : RunState)
      → attempt ≤ limit
      → (attempt < limit → is_temporary (env attempt).outcome ≡ false)
      → Pending s
      → Ended env attempt limit
          (attempted (env attempt) attempt s, not (is_cancelled (env attempt).outcome))
  Ended-here attempt limit s le final p = elim (Bool-cases (is_cancelled (env attempt).outcome)) [
    | inl cut ↦ rw cut (cut_here attempt limit s le (inl cut) p)
    | inr went ↦ rw went (Settled-here attempt limit s le final p)
  ]

  Settled-later :
      (attempt limit : ℕ) (t : RunState)
      → is_temporary (env attempt).outcome ≡ true
      → Settled env (attempt + 1) limit t
      → Settled env attempt limit t
  Settled-later attempt limit t temp v = record {
    last = v.last;
    from_first = omega (arith, v.from_first);
    to_limit = v.to_limit;
    attempts = v.attempts;
    retried = λ i lo hi. elim (Bool-cases (nat_beq i attempt)) [
      | inl at ↦
          subst (λ n. is_temporary (env n).outcome ≡ true) (sym ((nat_beq_iff i attempt).0 at)) temp
      | inr behind ↦ v.retried i (ground arith) hi
    ];
    final = v.final;
    status = v.status;
    items = v.items;
    counted = v.counted;
  }

  Ended-later :
      (attempt limit : ℕ) (r : RunState × Bool)
      → is_temporary (env attempt).outcome ≡ true
      → Ended env (attempt + 1) limit r
      → Ended env attempt limit r
  Ended-later attempt limit (t, true) temp v = Settled-later attempt limit t temp v
  Ended-later attempt limit (t, false) temp v = v

  attempt_loop-Ended :
      (left attempt : ℕ) (s : RunState)
      → s.attempts ≤ attempt
      → Pending s
      → Ended env attempt (attempt + left) (attempt_loop env left attempt s)
  unfolding attempt_loop
  attempt_loop-Ended zero attempt s few p = elim (Bool-cases (env attempt).stopped) [
    | inl stop ↦ rw stop (not_begun attempt (attempt + 0) s few (omega arith) p)
    | inr go ↦
        rw go (Ended-here attempt (attempt + 0) s (omega arith) (λ lt. absurd (omega arith)) p)
  ]
  attempt_loop-Ended (suc left) attempt s few p = elim (Bool-cases (env attempt).stopped) [
    | inl stop ↦ rw stop (not_begun attempt (attempt + suc left) s few (omega arith) p)
    | inr go ↦ elim (Bool-cases (is_temporary (env attempt).outcome)) [
      | inr last ↦
          rw (go, last) (Ended-here attempt (attempt + suc left) s (omega arith) (λ lt. last) p)
      | inl temp ↦ elim (Bool-cases (env attempt).sleep_cancelled) [
        | inl cut ↦
            rw (go, temp, cut) (cut_here attempt (attempt + suc left) s (omega arith) (inr temp) p)
        | inr slept ↦
            let limit : attempt + 1 + left ≡ attempt + suc left = omega arith in
            let s' = attempted (env attempt) attempt s in
            let a = attempted-Attempted attempt s p in
            let rest = attempt_loop-Ended left (attempt + 1) s' (omega (arith, a.attempts)) (
              settle-Pending (env attempt).outcome (record s { attempts = attempt + 1 }) temp
                (record { status = p.status; items = p.items; counted = p.counted })) in
            rw (go, temp, slept)
              (Ended-later attempt (attempt + suc left) (attempt_loop env left (attempt + 1) s')
                temp
                (subst (λ n. Ended env (attempt + 1) n (attempt_loop env left (attempt + 1) s'))
                  limit rest))
      ]
    ]
  ]

run_Ended :
    (retries : ℕ) (env : ℕ → Attempt) → Ended env 0 retries (attempt_loop env retries 0 fresh_run)
run_Ended retries env =
    let none_before : 0 + retries ≡ retries = omega arith in
    subst (λ n. Ended env 0 n (attempt_loop env retries 0 fresh_run)) none_before
      (attempt_loop-Ended env retries 0 fresh_run (omega arith)
        (record { status = refl; items = refl; counted = refl }))

abbrev state_of : Bool → RunState × Bool → RunState
state_of admitted (s, done) =
    if not admitted
    then record fresh_run { status = cancelled_run }
    else if done
    then s
    else record s { status = cancelled_run }

run_state_lem :
    (retries : ℕ) (admitted : Bool) (env : ℕ → Attempt)
    → run_state retries admitted env ≡ state_of admitted (attempt_loop env retries 0 fresh_run)
unfolding run_state
run_state_lem retries admitted env = refl

Ended-bounded :
    (env : ℕ → Attempt) (retries : ℕ) (admitted : Bool) (r : RunState × Bool)
    → Ended env 0 retries r
    → ((state_of admitted r).attempts ≤ retries + 1)
      × ((state_of admitted r).errors ≡ length (state_of admitted r).recorded)
Ended-bounded env retries false (s, done) v = (omega arith, refl)
Ended-bounded env retries true (s, true) v = (omega (arith, v.attempts, v.to_limit), v.counted)
Ended-bounded env retries true (s, false) v = (v.few, v.counted)

Ended-Settled :
    (env : ℕ → Attempt) (retries : ℕ) (admitted : Bool) (r : RunState × Bool)
    → Ended env 0 retries r
    → (state_of admitted r).status ≢ cancelled_run
    → Settled env 0 retries (state_of admitted r)
Ended-Settled env retries false (s, done) v h = absurd (h refl)
Ended-Settled env retries true (s, true) v h = v
Ended-Settled env retries true (s, false) v h = absurd (h refl)

-- However the collector answers, a run makes at most one attempt more than its retries, and counts
-- as many errors as it gives issues to the repository.
pub run_state_bounded :
    (retries : ℕ) (admitted : Bool) (env : ℕ → Attempt)
    → ((run_state retries admitted env).attempts ≤ retries + 1)
      × ((run_state retries admitted env).errors ≡ length (run_state retries admitted env).recorded)
run_state_bounded retries admitted env = rw (run_state_lem retries admitted env) (
    Ended-bounded env retries admitted (attempt_loop env retries 0 fresh_run)
      (run_Ended retries env))

-- A run that is not cancelled goes on exactly behind temporary failures: its last attempt is the
-- first whose outcome is something else, or the last that the retries allow. The run succeeds, is
-- partial or failed as that attempt did, and has its items.
pub run_state-Settled :
    (retries : ℕ) (admitted : Bool) (env : ℕ → Attempt)
    → (run_state retries admitted env).status ≢ cancelled_run
    → Settled env 0 retries (run_state retries admitted env)
run_state-Settled retries admitted env =
    subst (λ t. t.status ≢ cancelled_run → Settled env 0 retries t)
      (sym (run_state_lem retries admitted env))
      (Ended-Settled env retries admitted (attempt_loop env retries 0 fresh_run)
        (run_Ended retries env))
