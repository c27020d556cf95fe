-- ===== src/Passive/Pipeline/Schedule/Workers.antt =====
-- passive.py: the steps of the workers and of `stop` keep the account.
use codexnet.Prelude.{
  ◌+◌, ◌<◌, ◌≡◌, refl, sym, ◌⊎◌, inl, inr, false, some, List, [], ◌∷◌, arith, length, All,
  Bool-cases, ap, ltb, ltb→lt,
}
use mathlib.Core.Path.{subst}
use codexnet.Prelude.Keys.{Eq}
use codexnet.Passive.Types.{PassiveFrame}
use codexnet.Passive.Pipeline.{Pipeline, Closing, drained, is_open}
use codexnet.Passive.Pipeline.Lifecycle.{
  take_frame, complete_frame, fail_frame, drop_frame, end_idle, begin_stop, cancel_workers,
  end_stop, pop_queue,
}
use codexnet.Passive.Pipeline.Schedule.Accounted.{Fits, IsAccounted, Balance}
use codexnet.Passive.Pipeline.Schedule.Balance.{
  Balance-take, Balance-complete, Balance-fail, Balance-drop, Balance-cancel, Balance-end,
  still_shut,
}

module _ {K : Type 0} ⦃e : Eq K⦄ where
  pop_queue_inv :
      (s t : Pipeline K) (f : PassiveFrame) (queue : List PassiveFrame)
      → pop_queue s queue ≡ some (f, t)
      → (rest : List PassiveFrame) × (queue ≡ f ∷ rest)
        × (t ≡ record s { queue = rest; in_flight = s.in_flight + 1 })
  pop_queue_inv s t f [] h = cc
  pop_queue_inv s t f (g ∷ rest) h = (rest, ground arith, ground arith)

  pub take_frame-IsAccounted :
      (s t : Pipeline K) (f : PassiveFrame)
      → take_frame s ≡ some (f, t)
      → IsAccounted s
      → IsAccounted t
  take_frame-IsAccounted s t f h v = elim (Bool-cases (ltb (s.in_flight + s.ended) s.workers)) [
    | inr full ↦ absurd (unfold take_frame in ground arith)
    | inl free ↦
        let (rest, was, made) = pop_queue_inv s t f s.queue (unfold take_frame in ground arith) in
        let size = ap (λ (l : List PassiveFrame). length l) was in
        let c = s.counters in
        subst IsAccounted (sym made) (record {
          room = omega (arith, size, v.room);
          peak = v.peak;
          busy = ground arith;
          balance =
              Balance-take s.closing c.submitted_frames c.processed_frames c.incomplete_frames
                s.lost (length rest) s.in_flight
                (subst
                  (λ n.
                    Balance s.closing c.submitted_frames c.processed_frames c.incomplete_frames
                      s.lost n s.in_flight)
                  (omega (arith, size)) v.balance);
          queued_fit = (subst (All (Fits s.settings)) was v.queued_fit).1;
          waiting_fit = v.waiting_fit;
          window = v.window;
          calm = v.calm;
          halted = λ dead.
              absurd (omega (arith, ltb→lt (s.in_flight + s.ended) s.workers free, v.halted dead));
        })
  ]

  pub complete_frame-IsAccounted :
      (s : Pipeline K) → 0 < s.in_flight → IsAccounted s → IsAccounted (complete_frame s)
  unfolding complete_frame
  complete_frame-IsAccounted s busy v =
      let c = s.counters in
      record {
        room = v.room;
        peak = v.peak;
        busy = omega (arith, v.busy);
        balance =
            Balance-complete s.closing c.submitted_frames c.processed_frames c.incomplete_frames
              s.lost (length s.queue) s.in_flight busy v.balance;
        queued_fit = v.queued_fit;
        waiting_fit = v.waiting_fit;
        window = v.window;
        calm = v.calm;
        halted = λ dead. absurd (omega (arith, v.halted dead));
      }

  pub fail_frame-IsAccounted :
      (s : Pipeline K) → 0 < s.in_flight → IsAccounted s → IsAccounted (fail_frame s)
  unfolding fail_frame
  fail_frame-IsAccounted s busy v =
      let c = s.counters in
      record {
        room = v.room;
        peak = v.peak;
        busy = omega (arith, v.busy);
        balance =
            Balance-fail s.closing c.submitted_frames c.processed_frames c.incomplete_frames s.lost
              (length s.queue) s.in_flight busy v.balance;
        queued_fit = v.queued_fit;
        waiting_fit = v.waiting_fit;
        window = v.window;
        calm = v.calm;
        halted = λ dead. absurd (omega (arith, v.halted dead));
      }

  pub drop_frame-IsAccounted :
      (s : Pipeline K)
      → is_open s.closing ≡ false
      → 0 < s.in_flight
      → IsAccounted s
      → IsAccounted (drop_frame s)
  unfolding drop_frame
  drop_frame-IsAccounted s shut busy v =
      let c = s.counters in
      record {
        room = v.room;
        peak = v.peak;
        busy = omega (arith, v.busy);
        balance =
            Balance-drop s.closing c.submitted_frames c.processed_frames c.incomplete_frames s.lost
              (length s.queue) s.in_flight shut busy v.balance;
        queued_fit = v.queued_fit;
        waiting_fit = v.waiting_fit;
        window = v.window;
        calm = v.calm;
        halted = λ dead. absurd (omega (arith, v.halted dead));
      }

  pub end_idle-IsAccounted :
      (s : Pipeline K)
      → s.in_flight + s.ended < s.workers
      → IsAccounted s
      → IsAccounted (end_idle s)
  unfolding end_idle
  end_idle-IsAccounted s idle v = record {
    room = v.room;
    peak = v.peak;
    busy = omega (arith, idle);
    balance = v.balance;
    queued_fit = v.queued_fit;
    waiting_fit = v.waiting_fit;
    window = v.window;
    calm = v.calm;
    halted = v.halted;
  }

  begin_stop_inv :
      (s : Pipeline K) → (begin_stop s ≡ s) ⊎ (begin_stop s ≡ record s { accepting = false })
  unfolding begin_stop
  begin_stop_inv s = ground arith

  pub begin_stop-IsAccounted : (s : Pipeline K) → IsAccounted s → IsAccounted (begin_stop s)
  begin_stop-IsAccounted s v = elim (begin_stop_inv s) [
    | inl same ↦ subst IsAccounted (sym same) v
    | inr made ↦ subst IsAccounted (sym made) (record {
      room = v.room;
      peak = v.peak;
      busy = v.busy;
      balance = v.balance;
      queued_fit = v.queued_fit;
      waiting_fit = v.waiting_fit;
      window = v.window;
      calm = λ shut. (refl, (v.calm shut).1);
      halted = v.halted;
    })
  ]

  pub cancel_workers-IsAccounted :
      (how : Closing) (s : Pipeline K)
      → is_open how ≡ false
      → s.accepting ≡ false
      → s.waiting ≡ []
      → (how ≡ drained → (s.queue ≡ []) × (s.in_flight ≡ 0))
      → IsAccounted s
      → IsAccounted (cancel_workers how s)
  unfolding cancel_workers
  cancel_workers-IsAccounted how s shut closed none_waits done v =
      let c = s.counters in
      record {
        room = v.room;
        peak = v.peak;
        busy = v.busy;
        balance =
            Balance-cancel how s.closing c.submitted_frames c.processed_frames c.incomplete_frames
              s.lost (length s.queue) s.in_flight shut
              (λ is. (ap (λ (l : List PassiveFrame). length l) (done is).0, (done is).1)) v.balance;
        queued_fit = v.queued_fit;
        waiting_fit = v.waiting_fit;
        window = v.window;
        calm = λ _. (closed, none_waits);
        halted = λ dead.
            let (no_workers, no_queue, idle, was) = v.halted dead in
            (no_workers, no_queue, idle, still_shut how s.closing shut);
      }

  pub end_stop-IsAccounted :
      (s : Pipeline K)
      → is_open s.closing ≡ false
      → s.in_flight ≡ 0
      → IsAccounted s
      → IsAccounted (end_stop s)
  unfolding end_stop
  end_stop-IsAccounted s shut idle v =
      let c = s.counters in
      record {
        room = omega arith;
        peak = v.peak;
        busy = omega (arith, idle);
        balance =
            Balance-end s.closing c.submitted_frames c.processed_frames c.incomplete_frames s.lost
              (length s.queue) s.in_flight shut v.balance;
        queued_fit = tt;
        waiting_fit = v.waiting_fit;
        window = v.window;
        calm = v.calm;
        halted = λ dead. (refl, refl, idle, shut);
      }
