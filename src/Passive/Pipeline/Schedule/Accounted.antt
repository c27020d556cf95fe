-- ===== src/Passive/Pipeline/Schedule/Accounted.antt =====
-- passive.py: no schedule loses a frame or exceeds a bound.
use codexnet.Prelude.{
  ℕ, ◌+◌, ◌≤◌, ◌≡◌, refl, sym, ◌⊎◌, inl, inr, true, false, Option, none, some, List, [], ◌∷◌, ◌++◌,
  arith, length, length-append, All, All-append, All-remove, Bool-cases, ◌∙◌,
}
use mathlib.Core.Path.{subst}
use codexnet.Prelude.Keys.{Eq}
use codexnet.Prelude.Result.{ok}
use codexnet.Prelude.Text.{Text}
use codexnet.Passive.Types.{PassiveFrame, Unicode}
use codexnet.Passive.Observation.{Stamp}
use codexnet.Passive.Dedupe.Window.{IsBounded}
use codexnet.Passive.Pipeline.{
  Pipeline, Closing, still_open, out_of_time, drained, interrupted, is_open, Settings, start,
  prepare_frame, offer, enqueue, has_room,
}
use codexnet.Passive.Pipeline.Lifecycle.{wait_for_room, put_waiting}

abbrev pub Fits : Settings → PassiveFrame → Type 0
Fits c f = length f.payload ≤ c.max_frame_bytes

-- Where the submitted frames are, by what is known of `stop`: processed, queued, in flight, counted
-- as incomplete, or lost to an exception. Behind a complete drain none is queued or in flight. Behind
-- a drain that ran out of time none is missing, but one that a worker still ends counts twice.
abbrev pub Balance : Closing → ℕ → ℕ → ℕ → ℕ → ℕ → ℕ → Type 0
Balance still_open submitted processed incomplete lost queued flying =
    submitted ≡ processed + queued + flying + incomplete + lost
Balance drained submitted processed incomplete lost queued flying =
    (submitted ≡ processed + incomplete + lost) × (queued ≡ 0) × (flying ≡ 0)
Balance out_of_time submitted processed incomplete lost queued flying =
    submitted ≤ processed + incomplete + lost
Balance interrupted submitted processed incomplete lost queued flying = Unit

-- The balance of a pipeline's counts.
abbrev pub Balanced : {K : Type 0} → Pipeline K → Type 0
Balanced s =
    let c = s.counters in
    Balance s.closing c.submitted_frames c.processed_frames c.incomplete_frames s.lost
      (length s.queue) s.in_flight

-- The queue and the window are bounded, only frames of the permitted size are held, every submitted
-- frame is accounted for, nothing is submitted once the workers are cancelled, and a stopped
-- pipeline holds no frame.
pub record IsAccounted {K : Type 0} ⦃e : Eq K⦄ (s : Pipeline K) : Type 0 where
  pub room : length s.queue ≤ s.settings.queue_size
  pub peak : s.counters.queue_peak ≤ s.settings.queue_size
  pub busy : s.in_flight + s.ended ≤ s.workers
  pub balance : Balanced s
  pub queued_fit : All (Fits s.settings) s.queue
  pub waiting_fit : All (Fits s.settings) s.waiting
  pub window : IsBounded s.settings.dedupe s.dedupe
  pub calm : is_open s.closing ≡ false → (s.accepting ≡ false) × (s.waiting ≡ [])
  pub halted :
      s.stopped ≡ true
      → (s.workers ≡ 0) × (s.queue ≡ []) × (s.in_flight ≡ 0) × (is_open s.closing ≡ false)

Balance-submit :
    (c : Closing) (submitted processed incomplete lost queued flying : ℕ)
    → is_open c ≡ true
    → Balance c submitted processed incomplete lost queued flying
    → Balance c (submitted + 1) processed incomplete lost (queued + 1) flying
Balance-submit still_open submitted processed incomplete lost queued flying h b = omega (arith, b)
Balance-submit drained submitted processed incomplete lost queued flying h b = cc
Balance-submit out_of_time submitted processed incomplete lost queued flying h b = cc
Balance-submit interrupted submitted processed incomplete lost queued flying h b = cc

module _ {K : Type 0} ⦃e : Eq K⦄ where
  start_inv :
      (s t : Pipeline K)
      → start s ≡ ok t
      → (t ≡ s)
        ⊎ ((s.stopped ≡ false)
            × (s.workers ≡ 0)
            × (t ≡ record s { accepting = true; workers = s.settings.worker_count }))
  unfolding start
  start_inv s t h = ground arith

  pub start-IsAccounted :
      (s t : Pipeline K) → is_open s.closing ≡ true → start s ≡ ok t → IsAccounted s → IsAccounted t
  start-IsAccounted s t opens h v = elim (start_inv s t h) [
    | inl same ↦ subst IsAccounted (sym same) v
    | inr (live, idle, made) ↦ subst IsAccounted (sym made) (record {
      room = v.room;
      peak = v.peak;
      busy = omega (arith, v.busy);
      balance = v.balance;
      queued_fit = v.queued_fit;
      waiting_fit = v.waiting_fit;
      window = v.window;
      calm = λ shut. absurd (ground arith);
      halted = λ dead. absurd (ground arith);
    })
  ]

-- What a prepared frame and the counts of refused ones leave alone.
pub record Prepared {K : Type 0} (s t : Pipeline K) (frame : Option PassiveFrame) : Type 0 where
  pub only_counts : t ≡ record s { counters = t.counters }
  pub submitted : t.counters.submitted_frames ≡ s.counters.submitted_frames
  pub processed : t.counters.processed_frames ≡ s.counters.processed_frames
  pub incomplete : t.counters.incomplete_frames ≡ s.counters.incomplete_frames
  pub peak : t.counters.queue_peak ≡ s.counters.queue_peak
  pub accepting : s.accepting ≡ true
  pub fits : (f : PassiveFrame) → frame ≡ some f → length f.payload ≤ s.settings.max_frame_bytes

module _ {K : Type 0} (unicode : Unicode) where
  pub prepare_frame-Prepared :
      (protocol : Text) (payload : List ℕ) (at : Stamp) (interface : Option Text) (s t : Pipeline K)
      (frame : Option PassiveFrame)
      → prepare_frame unicode protocol payload at interface s ≡ ok (t, frame)
      → Prepared s t frame
  unfolding prepare_frame
  prepare_frame-Prepared protocol payload at interface s t frame h = record {
    only_counts = ground arith;
    submitted = ground arith;
    processed = ground arith;
    incomplete = ground arith;
    peak = ground arith;
    accepting = ground arith;
    fits = λ f is. ground arith;
  }

module _ {K : Type 0} ⦃e : Eq K⦄ where
  pub Prepared-IsAccounted :
      (s t : Pipeline K) (frame : Option PassiveFrame)
      → Prepared s t frame
      → IsAccounted s
      → IsAccounted t
  Prepared-IsAccounted s t frame p v = subst IsAccounted (sym p.only_counts) (record {
    room = v.room;
    peak = omega (arith, v.peak, p.peak);
    busy = v.busy;
    balance = rw (p.submitted, p.processed, p.incomplete) v.balance;
    queued_fit = v.queued_fit;
    waiting_fit = v.waiting_fit;
    window = v.window;
    calm = v.calm;
    halted = v.halted;
  })

  enqueue-IsAccounted :
      (f : PassiveFrame) (s : Pipeline K)
      → has_room s ≡ true
      → Fits s.settings f
      → is_open s.closing ≡ true
      → IsAccounted s
      → IsAccounted (enqueue f s)
  unfolding enqueue
  enqueue-IsAccounted f s free fit opens v =
      let size = length-append s.queue (f ∷ []) in
      let c = s.counters in
      record {
        room = ground (arith, size);
        peak = ground (arith, size);
        busy = v.busy;
        balance = rw size (
            Balance-submit s.closing c.submitted_frames c.processed_frames c.incomplete_frames
              s.lost (length s.queue) s.in_flight opens v.balance);
        queued_fit = All-append (Fits s.settings) s.queue (f ∷ []) v.queued_fit (fit, tt);
        waiting_fit = v.waiting_fit;
        window = v.window;
        calm = λ shut. absurd (ground arith);
        halted = λ dead. absurd (ground (arith, v.halted dead));
      }

  reject-IsAccounted :
      (f : PassiveFrame) (s : Pipeline K)
      → has_room s ≡ false
      → IsAccounted s
      → IsAccounted (offer (some f) s).0
  unfolding offer
  reject-IsAccounted f s full v = rw full (record {
    room = v.room;
    peak = v.peak;
    busy = v.busy;
    balance = v.balance;
    queued_fit = v.queued_fit;
    waiting_fit = v.waiting_fit;
    window = v.window;
    calm = v.calm;
    halted = v.halted;
  })

  pub offer-IsAccounted :
      (frame : Option PassiveFrame) (s : Pipeline K)
      → ((f : PassiveFrame) → frame ≡ some f → Fits s.settings f × (is_open s.closing ≡ true))
      → IsAccounted s
      → IsAccounted (offer frame s).0
  offer-IsAccounted none s fits v = unfold offer in v
  offer-IsAccounted (some f) s fits v = elim (Bool-cases (has_room s)) [
    | inr full ↦ reject-IsAccounted f s full v
    | inl free ↦
        unfold offer in rw free (enqueue-IsAccounted f s free (fits f refl).0 (fits f refl).1 v)
  ]

  open_of_accepting :
      (s : Pipeline K) → IsAccounted s → s.accepting ≡ true → is_open s.closing ≡ true
  open_of_accepting s v on = elim (Bool-cases (is_open s.closing)) [
    | inl opens ↦ opens
    | inr shut ↦ absurd (ground (arith, v.calm shut))
  ]

  -- A prepared frame fits, and the workers of the pipeline that prepared it are not cancelled.
  pub Prepared-Fits :
      (s t : Pipeline K) (frame : Option PassiveFrame)
      → Prepared s t frame
      → IsAccounted s
      → (f : PassiveFrame) → frame ≡ some f
      → Fits t.settings f × (is_open t.closing ≡ true)
  Prepared-Fits s t frame p v f is =
      subst (λ u. Fits u.settings f × (is_open u.closing ≡ true)) (sym p.only_counts)
        (p.fits f is, open_of_accepting s v p.accepting)

  pub wait_for_room-IsAccounted :
      (f : PassiveFrame) (s : Pipeline K)
      → Fits s.settings f
      → is_open s.closing ≡ true
      → IsAccounted s
      → IsAccounted (wait_for_room f s)
  unfolding wait_for_room
  wait_for_room-IsAccounted f s fit opens v = record {
    room = v.room;
    peak = v.peak;
    busy = v.busy;
    balance = v.balance;
    queued_fit = v.queued_fit;
    waiting_fit = All-append (Fits s.settings) s.waiting (f ∷ []) v.waiting_fit (fit, tt);
    window = v.window;
    calm = λ shut. absurd (ground arith);
    halted = v.halted;
  }

  pub put_waiting-IsAccounted :
      (before : List PassiveFrame) (f : PassiveFrame) (after : List PassiveFrame) (s : Pipeline K)
      → s.waiting ≡ before ++ f ∷ after
      → has_room s ≡ true
      → IsAccounted s
      → IsAccounted (put_waiting before f after s)
  unfolding put_waiting
  put_waiting-IsAccounted before f after s w free v =
      let (fit, others) =
        All-remove (Fits s.settings) before f after
          (subst (All (Fits s.settings)) w v.waiting_fit) in
      let opens : is_open s.closing ≡ true = elim (Bool-cases (is_open s.closing)) [
        | inl opens ↦ opens
        | inr shut ↦ absurd (nonempty before (sym w ∙ (v.calm shut).1))
      ] in
      enqueue-IsAccounted f (record s { waiting = before ++ after }) free fit opens
        (record {
          room = v.room;
          peak = v.peak;
          busy = v.busy;
          balance = v.balance;
          queued_fit = v.queued_fit;
          waiting_fit = others;
          window = v.window;
          calm = λ shut. absurd (ground arith);
          halted = v.halted;
        })
    where
      nonempty : (xs : List PassiveFrame) → xs ++ f ∷ after ≡ [] → ⊥
      nonempty [] h = cc
      nonempty (x ∷ xs) h = cc
