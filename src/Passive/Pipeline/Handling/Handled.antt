-- ===== src/Passive/Pipeline/Handling/Handled.antt =====
-- passive.py, `_handle_frame`: what its stretches leave alone and what they count, in sequence.
use codexnet.Prelude.{ℕ, ◌+◌, ◌≡◌, refl, Bool, true, false, arith, ◌∙◌}
use mathlib.Core.Path.{subst}
use codexnet.Prelude.Keys.{Eq}
use codexnet.Passive.Dedupe.{Dedupe}
use codexnet.Passive.Dedupe.Window.{IsBounded}
use codexnet.Passive.Pipeline.{Pipeline, Counters}

-- The outcomes of single observations and parsers.
abbrev pub outcomes : Counters → ℕ
outcomes c = c.emitted_observations + c.duplicate_observations + c.sink_failures + c.parser_failures

-- What the handling of a frame leaves alone, and the table that it keeps within its bound.
pub record Handles {K : Type 0} ⦃e : Eq K⦄ (s t : Pipeline K) (n : ℕ) (goes_on : Bool)
    : Type 0 where
  pub settings : t.settings ≡ s.settings
  pub queue : t.queue ≡ s.queue
  pub waiting : t.waiting ≡ s.waiting
  pub workers : t.workers ≡ s.workers
  pub in_flight : t.in_flight ≡ s.in_flight
  pub accepting : t.accepting ≡ s.accepting
  pub stopped : t.stopped ≡ s.stopped
  pub ended : t.ended ≡ s.ended
  pub lost : t.lost ≡ s.lost
  pub closing : t.closing ≡ s.closing
  pub submitted : t.counters.submitted_frames ≡ s.counters.submitted_frames
  pub processed : t.counters.processed_frames ≡ s.counters.processed_frames
  pub incomplete : t.counters.incomplete_frames ≡ s.counters.incomplete_frames
  pub peak : t.counters.queue_peak ≡ s.counters.queue_peak
  pub dedupe : IsBounded s.settings.dedupe s.dedupe → IsBounded t.settings.dedupe t.dedupe
  pub counted : goes_on ≡ true → outcomes t.counters ≡ outcomes s.counters + n

module _ {K : Type 0} ⦃e : Eq K⦄ where
  -- The handlers of single outcomes write the window and the counts, and no more.
  pub Handles-update :
      (s : Pipeline K) (d : Dedupe K) (c : Counters) (n : ℕ) (b : Bool)
      → (c.submitted_frames ≡ s.counters.submitted_frames)
        × (c.processed_frames ≡ s.counters.processed_frames)
        × (c.incomplete_frames ≡ s.counters.incomplete_frames)
        × (c.queue_peak ≡ s.counters.queue_peak)
      → (IsBounded s.settings.dedupe s.dedupe → IsBounded s.settings.dedupe d)
      → (b ≡ true → outcomes c ≡ outcomes s.counters + n)
      → Handles s (record s { dedupe = d; counters = c }) n b
  Handles-update s d c n b (sub, done, left, peak) keep counts = record {
    settings = refl;
    queue = refl;
    waiting = refl;
    workers = refl;
    in_flight = refl;
    accepting = refl;
    stopped = refl;
    ended = refl;
    lost = refl;
    closing = refl;
    submitted = sub;
    processed = done;
    incomplete = left;
    peak = peak;
    dedupe = keep;
    counted = counts;
  }

  pub Handles-refl : (s : Pipeline K) → Handles s s 0 true
  Handles-refl s =
      Handles-update s s.dedupe s.counters 0 true (refl, refl, refl, refl) (λ v. v)
        (λ _. omega arith)

  pub Handles-trans :
      {s t u : Pipeline K} {m n : ℕ} {b : Bool}
      → Handles s t m true
      → Handles t u n b
      → Handles s u (m + n) b
  Handles-trans h k = record {
    settings = k.settings ∙ h.settings;
    queue = k.queue ∙ h.queue;
    waiting = k.waiting ∙ h.waiting;
    workers = k.workers ∙ h.workers;
    in_flight = k.in_flight ∙ h.in_flight;
    accepting = k.accepting ∙ h.accepting;
    stopped = k.stopped ∙ h.stopped;
    ended = k.ended ∙ h.ended;
    lost = k.lost ∙ h.lost;
    closing = k.closing ∙ h.closing;
    submitted = k.submitted ∙ h.submitted;
    processed = k.processed ∙ h.processed;
    incomplete = k.incomplete ∙ h.incomplete;
    peak = k.peak ∙ h.peak;
    dedupe = λ v. k.dedupe (h.dedupe v);
    counted = λ on. omega (arith, h.counted refl, k.counted on);
  }

  pub Handles-recount :
      {s t : Pipeline K} {m n : ℕ} {b : Bool} → m ≡ n → Handles s t m b → Handles s t n b
  Handles-recount {s} {t} {b = b} same h = subst (λ k. Handles s t k b) same h

  -- An exception leaves the counts open.
  pub Handles-cancelled :
      {s t : Pipeline K} {m : ℕ} (n : ℕ) → Handles s t m false → Handles s t n false
  Handles-cancelled n h = record {
    settings = h.settings;
    queue = h.queue;
    waiting = h.waiting;
    workers = h.workers;
    in_flight = h.in_flight;
    accepting = h.accepting;
    stopped = h.stopped;
    ended = h.ended;
    lost = h.lost;
    closing = h.closing;
    submitted = h.submitted;
    processed = h.processed;
    incomplete = h.incomplete;
    peak = h.peak;
    dedupe = h.dedupe;
    counted = λ on. cc;
  }
