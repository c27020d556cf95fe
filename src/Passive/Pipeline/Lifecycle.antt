-- ===== src/Passive/Pipeline/Lifecycle.antt =====
-- passive.py: `submit`, `_worker`, `stop` and `metrics`, cut at the points where they await.
use codexnet.Prelude.{
  ℕ, ◌+◌, ◌-◌, true, false, Option, none, some, List, [], ◌∷◌, ◌++◌, length, ltb, if◌then◌else◌,
}
use codexnet.Passive.Types.{PassiveFrame}
use codexnet.Passive.Pipeline.{
  Pipeline, Counters, enqueue, Closing, still_open, out_of_time, drained, interrupted, is_open,
}

-- The frames that `except TimeoutError` adds.
abbrev pub unfinished : Closing → ℕ → ℕ
unfinished out_of_time n = n
unfinished still_open n = 0
unfinished drained n = 0
unfinished interrupted n = 0

module _ {K : Type 0} where
  -- submit: a prepared frame waits in `queue.put`, and its submitter counts as active.
  unfoldable pub wait_for_room : PassiveFrame → Pipeline K → Pipeline K
  wait_for_room frame s = record s { waiting = s.waiting ++ frame ∷ [] }

  -- `queue.put` returns for one of the waiting submitters; `before` and `after` are the others.
  unfoldable pub put_waiting :
      List PassiveFrame → PassiveFrame → List PassiveFrame → Pipeline K → Pipeline K
  put_waiting before frame after s = enqueue frame (record s { waiting = before ++ after })

  abbrev pub pop_queue : Pipeline K → List PassiveFrame → Option (PassiveFrame × Pipeline K)
  pop_queue s [] = none
  pop_queue s (frame ∷ queue) =
      some (frame, record s { queue = queue; in_flight = s.in_flight + 1 })

  -- _worker: an idle worker takes the oldest frame of the queue.
  unfoldable pub take_frame : Pipeline K → Option (PassiveFrame × Pipeline K)
  take_frame s = if ltb (s.in_flight + s.ended) s.workers then pop_queue s s.queue else none

  -- _worker: the frame is handled, and the `finally` block runs.
  unfoldable pub complete_frame : Pipeline K → Pipeline K
  complete_frame s =
      let c = s.counters in
      record s {
        counters = record c { processed_frames = c.processed_frames + 1 };
        in_flight = s.in_flight - 1;
      }

  -- stop, up to its first await
  unfoldable pub begin_stop : Pipeline K → Pipeline K
  begin_stop s = if s.stopped then s else record s { accepting = false }

  -- _worker: an exception leaves `_handle_frame`; behind the `finally` block it ends the worker.
  unfoldable pub fail_frame : Pipeline K → Pipeline K
  fail_frame s = record s { in_flight = s.in_flight - 1; ended = s.ended + 1; lost = s.lost + 1 }

  -- _worker: the cancellation by `stop` ends the worker, with its frame or while it is idle.
  unfoldable pub drop_frame : Pipeline K → Pipeline K
  drop_frame s = record s { in_flight = s.in_flight - 1; ended = s.ended + 1 }

  unfoldable pub end_idle : Pipeline K → Pipeline K
  end_idle s = record s { ended = s.ended + 1 }

  -- stop, from the end of the drain to the await of `gather`: on a timeout the unfinished frames are
  -- counted, and in every case the workers are cancelled.
  unfoldable pub cancel_workers : Closing → Pipeline K → Pipeline K
  cancel_workers how s =
      let c = s.counters in
      record s {
        counters = record c {
          incomplete_frames = c.incomplete_frames + unfinished how (length s.queue + s.in_flight);
        };
        closing = if is_open s.closing then how else interrupted;
      }

  -- stop, behind `gather`: the queue is emptied.
  unfoldable pub end_stop : Pipeline K → Pipeline K
  end_stop s = record s { queue = []; workers = 0; ended = 0; stopped = true }

  -- The gauges of `metrics`; the counters stand beside them unchanged.
  unfoldable pub metrics : Pipeline K → Counters × record { queue_depth : ℕ; in_flight : ℕ }
  metrics s = (s.counters, record { queue_depth = length s.queue; in_flight = s.in_flight })
