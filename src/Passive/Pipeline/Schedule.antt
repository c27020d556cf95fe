-- ===== src/Passive/Pipeline/Schedule.antt =====
-- passive.py: the interleavings of submitters, workers and `stop` as sequences of steps.
pub mod Accounted
pub mod Balance
pub mod Workers
pub mod Safety
use codexnet.Prelude.{ℕ, ◌+◌, ◌<◌, ◌≡◌, Bool, true, false, Option, none, some, List, [], ◌∷◌, ◌++◌}
use codexnet.Prelude.Keys.{Eq}
use codexnet.Prelude.Result.{Result, ok}
use codexnet.Prelude.Text.{Text}
use codexnet.Passive.Types.{Instant, PassiveFrame, Unicode}
use codexnet.Passive.Observation.{Stamp}
use codexnet.Passive.Pipeline.{
  Pipeline, Closing, is_open, drained, has_room, start, prepare_frame, submit_nowait,
}
use codexnet.Passive.Pipeline.Handling.{ParserRun, Encoding, handle_run}
use codexnet.Passive.Pipeline.Lifecycle.{
  wait_for_room, put_waiting, take_frame, complete_frame, fail_frame, drop_frame, end_idle,
  begin_stop, cancel_workers, end_stop,
}

-- One uninterrupted stretch of one task. `work` is a part of a worker's `_handle_frame`: any values
-- of one parser's output, with whatever the clock and the sink answer; an exception may leave it at
-- any time. `stop` goes on behind its drain when no submitter is active, on a timeout, on a drain
-- that is complete, or because it is cancelled itself. From then on each worker may end by the
-- cancellation or go on, as it does when a sink swallows it, and `stop` goes on when no frame is in
-- flight. A second `stop` may run beside the first. `start` is not called once `stop` cancels.
module _ {F K : Type 0} ⦃e : Eq K⦄ (unicode : Unicode) (encoding : Encoding F K) where
  pub data Step (s t : Pipeline K) : Type 0 where
    starts : is_open s.closing ≡ true → start s ≡ ok t → Step s t
    submits :
        (protocol : Text) (payload : List ℕ) (at : Stamp) (interface : Option Text)
        (accepted : Bool)
        → submit_nowait unicode protocol payload at interface s ≡ ok (t, accepted)
        → Step s t
    refuses :
        (protocol : Text) (payload : List ℕ) (at : Stamp) (interface : Option Text)
        → prepare_frame unicode protocol payload at interface s ≡ ok (t, none)
        → Step s t
    blocks :
        (protocol : Text) (payload : List ℕ) (at : Stamp) (interface : Option Text) (u : Pipeline K)
        (frame : PassiveFrame)
        → prepare_frame unicode protocol payload at interface s ≡ ok (u, some frame)
        → t ≡ wait_for_room frame u
        → Step s t
    puts :
        (before : List PassiveFrame) (frame : PassiveFrame) (after : List PassiveFrame)
        → s.waiting ≡ before ++ frame ∷ after
        → has_room s ≡ true
        → t ≡ put_waiting before frame after s
        → Step s t
    takes : (frame : PassiveFrame) → take_frame s ≡ some (frame, t) → Step s t
    works :
        (at : Instant) (run : ParserRun F)
        → 0 < s.in_flight
        → t ≡ (handle_run encoding at run s).0
        → Step s t
    completes : 0 < s.in_flight → t ≡ complete_frame s → Step s t
    stops : t ≡ begin_stop s → Step s t
    fails : 0 < s.in_flight → t ≡ fail_frame s → Step s t
    drops : is_open s.closing ≡ false → 0 < s.in_flight → t ≡ drop_frame s → Step s t
    leaves :
        is_open s.closing ≡ false → s.in_flight + s.ended < s.workers → t ≡ end_idle s → Step s t
    cancels :
        (how : Closing)
        → is_open how ≡ false
        → s.accepting ≡ false
        → s.waiting ≡ []
        → (how ≡ drained → (s.queue ≡ []) × (s.in_flight ≡ 0))
        → t ≡ cancel_workers how s
        → Step s t
    ends : is_open s.closing ≡ false → s.in_flight ≡ 0 → t ≡ end_stop s → Step s t

  pub data Reach (s : Pipeline K) : Pipeline K → Type 0 where
    unmoved : Reach s s
    moved : {mid t : Pipeline K} → Reach s mid → Step mid t → Reach s t
