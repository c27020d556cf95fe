-- ===== src/Passive/Pipeline/Schedule/Balance.antt =====
-- passive.py: the account of the submitted frames through the steps of the workers and of `stop`.
use codexnet.Prelude.{ℕ, ◌+◌, ◌-◌, ◌<◌, ◌≡◌, refl, false, arith, if◌then◌else◌}
use codexnet.Passive.Pipeline.{Closing, still_open, out_of_time, drained, interrupted, is_open}
use codexnet.Passive.Pipeline.Lifecycle.{unfinished}
use codexnet.Passive.Pipeline.Schedule.Accounted.{Balance}

pub Balance-take :
    (c : Closing) (submitted processed incomplete lost queued flying : ℕ)
    → Balance c submitted processed incomplete lost (queued + 1) flying
    → Balance c submitted processed incomplete lost queued (flying + 1)
Balance-take still_open submitted processed incomplete lost queued flying b = omega (arith, b)
Balance-take drained submitted processed incomplete lost queued flying b = absurd (omega (arith, b))
Balance-take out_of_time submitted processed incomplete lost queued flying b = b
Balance-take interrupted submitted processed incomplete lost queued flying b = tt

pub Balance-complete :
    (c : Closing) (submitted processed incomplete lost queued flying : ℕ)
    → 0 < flying
    → Balance c submitted processed incomplete lost queued flying
    → Balance c submitted (processed + 1) incomplete lost queued (flying - 1)
Balance-complete still_open submitted processed incomplete lost queued flying busy b =
    omega (arith, b)
Balance-complete drained submitted processed incomplete lost queued flying busy b =
    absurd (omega (arith, b))
Balance-complete out_of_time submitted processed incomplete lost queued flying busy b =
    omega (arith, b)
Balance-complete interrupted submitted processed incomplete lost queued flying busy b = tt

pub Balance-fail :
    (c : Closing) (submitted processed incomplete lost queued flying : ℕ)
    → 0 < flying
    → Balance c submitted processed incomplete lost queued flying
    → Balance c submitted processed incomplete (lost + 1) queued (flying - 1)
Balance-fail still_open submitted processed incomplete lost queued flying busy b = omega (arith, b)
Balance-fail drained submitted processed incomplete lost queued flying busy b =
    absurd (omega (arith, b))
Balance-fail out_of_time submitted processed incomplete lost queued flying busy b = omega (arith, b)
Balance-fail interrupted submitted processed incomplete lost queued flying busy b = tt

pub Balance-drop :
    (c : Closing) (submitted processed incomplete lost queued flying : ℕ)
    → is_open c ≡ false
    → 0 < flying
    → Balance c submitted processed incomplete lost queued flying
    → Balance c submitted processed incomplete lost queued (flying - 1)
Balance-drop still_open submitted processed incomplete lost queued flying shut busy b = cc
Balance-drop drained submitted processed incomplete lost queued flying shut busy b =
    absurd (omega (arith, b))
Balance-drop out_of_time submitted processed incomplete lost queued flying shut busy b = b
Balance-drop interrupted submitted processed incomplete lost queued flying shut busy b = tt

-- The timeout counts what is unfinished; a complete drain has nothing to count.
pub Balance-cancel :
    (how c : Closing) (submitted processed incomplete lost queued flying : ℕ)
    → is_open how ≡ false
    → (how ≡ drained → (queued ≡ 0) × (flying ≡ 0))
    → Balance c submitted processed incomplete lost queued flying
    → Balance
        (if is_open c then how else interrupted)
        submitted
        processed
        (incomplete + unfinished how (queued + flying))
        lost
        queued
        flying
Balance-cancel still_open still_open submitted processed incomplete lost queued flying shut done b =
    cc
Balance-cancel drained still_open submitted processed incomplete lost queued flying shut done b =
    let (no_queue, no_flight) = done refl in (omega (arith, b), no_queue, no_flight)
Balance-cancel out_of_time still_open submitted processed incomplete lost queued flying shut done
      b =
    omega (arith, b)
Balance-cancel interrupted still_open submitted processed incomplete lost queued flying shut done
      b =
    tt
Balance-cancel how drained submitted processed incomplete lost queued flying shut done b = tt
Balance-cancel how out_of_time submitted processed incomplete lost queued flying shut done b = tt
Balance-cancel how interrupted submitted processed incomplete lost queued flying shut done b = tt

pub Balance-end :
    (c : Closing) (submitted processed incomplete lost queued flying : ℕ)
    → is_open c ≡ false
    → Balance c submitted processed incomplete lost queued flying
    → Balance c submitted processed incomplete lost 0 flying
Balance-end still_open submitted processed incomplete lost queued flying shut b = cc
Balance-end drained submitted processed incomplete lost queued flying shut (all, none_left, idle) =
    (all, refl, idle)
Balance-end out_of_time submitted processed incomplete lost queued flying shut b = b
Balance-end interrupted submitted processed incomplete lost queued flying shut b = tt

pub still_shut :
    (how c : Closing)
    → is_open how ≡ false
    → is_open (if is_open c then how else interrupted) ≡ false
still_shut how still_open shut = shut
still_shut how drained shut = refl
still_shut how out_of_time shut = refl
still_shut how interrupted shut = refl
