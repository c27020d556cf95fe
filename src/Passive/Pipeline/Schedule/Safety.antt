-- ===== src/Passive/Pipeline/Schedule/Safety.antt =====
-- passive.py: every state that a schedule reaches is accounted for.
use codexnet.Prelude.{ℕ, ◌≡◌, refl, sym, Bool, none, some, List, arith, All, ◌∙◌, ap}
use mathlib.Core.Path.{subst, subst₂}
use codexnet.Prelude.Keys.{Eq}
use codexnet.Prelude.Result.{ok, >>=-eq-ok, ok-injective}
use codexnet.Prelude.Text.{Text}
use codexnet.Passive.Types.{Unicode}
use codexnet.Passive.Dedupe.{DedupeSettings}
use codexnet.Passive.Pipeline.{
  Pipeline, is_open, new_pipeline, idle_pipeline, normalized, prepare_frame, submit_nowait, offer,
}
use codexnet.Passive.Pipeline.Handling.{Encoding, handle_run}
use codexnet.Passive.Pipeline.Handling.Handled.{Handles}
use codexnet.Passive.Pipeline.Handling.Accounting.{handle_run-Handles}
use codexnet.Passive.Pipeline.Schedule.{
  Step, starts, submits, refuses, blocks, puts, takes, works, completes, stops, fails, drops,
  leaves, cancels, ends, Reach, unmoved, moved,
}
use codexnet.Passive.Pipeline.Schedule.Accounted.{
  IsAccounted, Fits, start-IsAccounted, prepare_frame-Prepared, Prepared-IsAccounted,
  offer-IsAccounted, Prepared-Fits, wait_for_room-IsAccounted, put_waiting-IsAccounted,
}
use codexnet.Passive.Pipeline.Schedule.Workers.{
  take_frame-IsAccounted, complete_frame-IsAccounted, begin_stop-IsAccounted, end_stop-IsAccounted,
  fail_frame-IsAccounted, drop_frame-IsAccounted, end_idle-IsAccounted, cancel_workers-IsAccounted,
}

module _ {F K : Type 0} ⦃e : Eq K⦄ (unicode : Unicode) (encoding : Encoding F K) where
  work-IsAccounted :
      {n : ℕ} {b : Bool} (s t : Pipeline K) → Handles s t n b → IsAccounted s → IsAccounted t
  work-IsAccounted s t h v = record {
    room = ground arith;
    peak = ground arith;
    busy = ground arith;
    balance =
        rw (h.closing, h.submitted, h.processed, h.incomplete, h.lost, h.queue, h.in_flight)
          v.balance;
    queued_fit = subst₂ (λ c q. All (Fits c) q) (sym h.settings) (sym h.queue) v.queued_fit;
    waiting_fit = subst₂ (λ c q. All (Fits c) q) (sym h.settings) (sym h.waiting) v.waiting_fit;
    window = h.dedupe v.window;
    calm = λ shut.
        let (closed, none_waits) = v.calm (sym (ap is_open h.closing) ∙ shut) in
        (h.accepting ∙ closed, h.waiting ∙ none_waits);
    halted = λ dead.
        let (no_workers, no_queue, no_frames, shut) = v.halted (sym h.stopped ∙ dead) in
        (
          h.workers ∙ no_workers,
          h.queue ∙ no_queue,
          h.in_flight ∙ no_frames,
          ap is_open h.closing ∙ shut,
        );
  }

  Step-IsAccounted : {s t : Pipeline K} → Step unicode encoding s t → IsAccounted s → IsAccounted t
  unfolding submit_nowait
  Step-IsAccounted {s} {t} (starts opens h) v = start-IsAccounted s t opens h v
  Step-IsAccounted {s} {t} (submits protocol payload at interface accepted h) v =
      let ((u, frame), prepared, offered) =
        >>=-eq-ok (prepare_frame unicode protocol payload at interface s) _ h in
      let p = prepare_frame-Prepared unicode protocol payload at interface s u frame prepared in
      let same =
        ap (λ (r : Pipeline K × Bool). r.0) (ok-injective (offer frame u) (t, accepted) offered) in
      subst IsAccounted same (
        offer-IsAccounted frame u (Prepared-Fits s u frame p v)
          (Prepared-IsAccounted s u frame p v))
  Step-IsAccounted {s} {t} (refuses protocol payload at interface h) v =
      Prepared-IsAccounted s t none
        (prepare_frame-Prepared unicode protocol payload at interface s t none h) v
  Step-IsAccounted {s} {t} (blocks protocol payload at interface u frame h made) v =
      let p = prepare_frame-Prepared unicode protocol payload at interface s u (some frame) h in
      let (fit, live) = Prepared-Fits s u (some frame) p v frame refl in
      subst IsAccounted (sym made)
        (wait_for_room-IsAccounted frame u fit live (Prepared-IsAccounted s u (some frame) p v))
  Step-IsAccounted {s} {t} (puts before frame after w free made) v =
      subst IsAccounted (sym made) (put_waiting-IsAccounted before frame after s w free v)
  Step-IsAccounted {s} {t} (takes frame h) v = take_frame-IsAccounted s t frame h v
  Step-IsAccounted {s} {t} (works at run busy made) v =
      subst IsAccounted (sym made) (
        work-IsAccounted s (handle_run encoding at run s).0 (handle_run-Handles encoding at run s)
          v)
  Step-IsAccounted {s} {t} (completes busy made) v =
      subst IsAccounted (sym made) (complete_frame-IsAccounted s busy v)
  Step-IsAccounted {s} {t} (stops made) v =
      subst IsAccounted (sym made) (begin_stop-IsAccounted s v)
  Step-IsAccounted {s} {t} (fails busy made) v =
      subst IsAccounted (sym made) (fail_frame-IsAccounted s busy v)
  Step-IsAccounted {s} {t} (drops shut busy made) v =
      subst IsAccounted (sym made) (drop_frame-IsAccounted s shut busy v)
  Step-IsAccounted {s} {t} (leaves shut idle made) v =
      subst IsAccounted (sym made) (end_idle-IsAccounted s idle v)
  Step-IsAccounted {s} {t} (cancels how shut closed none_waits done made) v =
      subst IsAccounted (sym made) (cancel_workers-IsAccounted how s shut closed none_waits done v)
  Step-IsAccounted {s} {t} (ends shut idle made) v =
      subst IsAccounted (sym made) (end_stop-IsAccounted s shut idle v)

  new_pipeline-IsAccounted :
      (queue_size worker_count max_frame_bytes : ℕ) (dedupe : DedupeSettings)
      (parsers : List (Text × ℕ)) (s : Pipeline K)
      → new_pipeline unicode queue_size worker_count max_frame_bytes dedupe parsers ≡ ok s
      → IsAccounted s
  new_pipeline-IsAccounted queue_size worker_count max_frame_bytes dedupe parsers s h =
      let named = normalized unicode parsers in
      let made : s
          ≡ idle_pipeline (record {
            queue_size = queue_size;
            worker_count = worker_count;
            max_frame_bytes = max_frame_bytes;
            dedupe = dedupe;
            parsers = named;
          }) =
        unfold new_pipeline in ground arith in
      subst IsAccounted (sym made) (record {
        room = omega arith;
        peak = omega arith;
        busy = omega arith;
        balance = refl;
        queued_fit = tt;
        waiting_fit = tt;
        window = record { fits = omega arith; distinct = tt };
        calm = λ shut. cc;
        halted = λ dead. cc;
      })

  Reach-IsAccounted :
      {s t : Pipeline K} → IsAccounted s → Reach unicode encoding s t → IsAccounted t
  Reach-IsAccounted v unmoved = v
  Reach-IsAccounted v (moved r st) = Step-IsAccounted st (Reach-IsAccounted v r)

  -- Whatever submitters, workers, parsers, clock and sink do, in every state that a new pipeline
  -- reaches the queue and the window's table keep their bounds, only frames of the permitted size
  -- wait or are queued, no more frames are in flight than workers live, and a stopped pipeline has
  -- neither workers nor frames. Until `stop` cancels the workers, every submitted frame is processed,
  -- queued, in flight, counted as incomplete, or one of the frames that were lost when an exception
  -- left their handling; from then on nothing is submitted. Behind a drain that was complete every
  -- frame is processed, incomplete or lost, and behind one that ran out of time none is missing,
  -- though a worker that does not yield to its cancellation may end a frame that is counted as
  -- incomplete. Behind a `stop` that was itself cancelled, or of which two ran, there is no balance.
  pub reached-IsAccounted :
      (queue_size worker_count max_frame_bytes : ℕ) (dedupe : DedupeSettings)
      (parsers : List (Text × ℕ)) (s t : Pipeline K)
      → new_pipeline unicode queue_size worker_count max_frame_bytes dedupe parsers ≡ ok s
      → Reach unicode encoding s t
      → IsAccounted t
  reached-IsAccounted queue_size worker_count max_frame_bytes dedupe parsers s t made =
      Reach-IsAccounted
        (new_pipeline-IsAccounted queue_size worker_count max_frame_bytes dedupe parsers s made)
