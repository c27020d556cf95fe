-- ===== src/Passive/Pipeline/Handling/Accounting.antt =====
-- passive.py, `_handle_frame`: every value that the parsers yield is counted once.
use codexnet.Prelude.{
  nat_beq, ℕ, ◌+◌, ◌≡◌, refl, Bool, true, false, List, [], ◌∷◌, if◌then◌else◌, arith, length, inl,
  inr, Bool-cases, Option-cases,
}
use codexnet.Prelude.Keys.{Eq}
use codexnet.Prelude.Result.{Result-cases}
use codexnet.Passive.Types.{Instant, PassiveFrame, PassiveObservation}
use codexnet.Passive.Observation.{Emitted, normalize_observation}
use codexnet.Passive.Dedupe.{Dedupe, is_duplicate}
use codexnet.Passive.Dedupe.Window.{IsBounded, is_duplicate-IsBounded, purged-IsBounded}
use codexnet.Passive.Pipeline.{Pipeline}
use codexnet.Passive.Pipeline.Handling.{
  SinkOutcome, Answer, ParserRun, raised, returned, Encoding, count_parser_failure, count_duplicate,
  deliver, judge, without_fingerprint, delivered, sink_failed, sink_cancelled, pass_on, handle_item,
  handle_items, handle_run, handle_runs, handle_frame,
}
use codexnet.Passive.Pipeline.Handling.Handled.{
  outcomes, Handles, Handles-update, Handles-refl, Handles-trans, Handles-recount,
  Handles-cancelled,
}

-- How many outcomes a parser call has.
abbrev pub expected : {F : Type 0} → ParserRun F → ℕ
expected raised = 1
expected (returned items) = length items

abbrev pub expected_all : {F : Type 0} → List (ParserRun F) → ℕ
expected_all [] = 0
expected_all (run ∷ runs) = expected run + expected_all runs

module _ {K : Type 0} ⦃e : Eq K⦄ where
  count_parser_failure-Handles : (s : Pipeline K) → Handles s (count_parser_failure s) 1 true
  unfolding count_parser_failure
  count_parser_failure-Handles s =
      Handles-update s s.dedupe _ 1 true (refl, refl, refl, refl) (λ v. v) (λ _. omega arith)

  count_duplicate-Handles :
      (s : Pipeline K) (d : Dedupe K)
      → (IsBounded s.settings.dedupe s.dedupe → IsBounded s.settings.dedupe d)
      → Handles s (count_duplicate d s) 1 true
  unfolding count_duplicate
  count_duplicate-Handles s d keep =
      Handles-update s d _ 1 true (refl, refl, refl, refl) keep (λ _. omega arith)

  deliver-Handles :
      (s : Pipeline K) (d : Dedupe K) (sink : SinkOutcome)
      → (IsBounded s.settings.dedupe s.dedupe → IsBounded s.settings.dedupe d)
      → Handles s (deliver sink d s).0 1 (deliver sink d s).1
  unfolding deliver
  deliver-Handles s d delivered keep =
      Handles-update s d _ 1 true (refl, refl, refl, refl) keep (λ _. omega arith)
  deliver-Handles s d sink_failed keep =
      Handles-update s d _ 1 true (refl, refl, refl, refl) keep (λ _. omega arith)
  deliver-Handles s d sink_cancelled keep =
      Handles-update s d _ 1 false (refl, refl, refl, refl) keep (λ on. cc)

module _ {F K : Type 0} ⦃e : Eq K⦄ (encoding : Encoding F K) where
  judge-Handles :
      (answer : Answer) (fp : K) (s : Pipeline K)
      → Handles s (judge encoding answer fp s).0 1 (judge encoding answer fp s).1
  unfolding judge
  judge-Handles answer fp s =
      let c = s.settings.dedupe in
      let d = (is_duplicate c answer.now fp s.dedupe).1 in
      let keep = is_duplicate-IsBounded c answer.now fp s.dedupe in
      elim (Bool-cases (is_duplicate c answer.now fp s.dedupe).0) [
        | inl seen ↦ rw (seen, judge) (count_duplicate-Handles s d keep)
        | inr new ↦ rw (new, judge) (deliver-Handles s d answer.sink keep)
      ]

  without_fingerprint-Handles :
      (answer : Answer) (s : Pipeline K)
      → Handles s
          (without_fingerprint encoding answer s).0
          1
          (without_fingerprint encoding answer s).1
  unfolding without_fingerprint
  without_fingerprint-Handles answer s = elim (Bool-cases (nat_beq s.settings.dedupe.window 0)) [
    | inl off ↦ rw (off, without_fingerprint) (deliver-Handles s s.dedupe answer.sink (λ v. v))
    | inr on ↦
        rw (on, without_fingerprint)
          (Handles-update s _ s.counters 1 false (refl, refl, refl, refl)
            (purged-IsBounded s.settings.dedupe answer.now s.dedupe) (λ on. cc))
  ]

  pass_on-Handles :
      (answer : Answer) (o : PassiveObservation F) (s : Pipeline K)
      → Handles s (pass_on encoding answer o s).0 1 (pass_on encoding answer o s).1
  unfolding pass_on
  pass_on-Handles answer o s = elim (Option-cases (encoding.fingerprint o)) [
    | inl failed ↦ rw (failed, pass_on) (without_fingerprint-Handles answer s)
    | inr (fp, made) ↦ rw (made, pass_on) (judge-Handles answer fp s)
  ]

  handle_item-Handles :
      (at : Instant) (item : Emitted F × Answer) (s : Pipeline K)
      → Handles s (handle_item encoding at item s).0 1 (handle_item encoding at item s).1
  unfolding handle_item
  handle_item-Handles at (item, answer) s =
      elim (Result-cases (normalize_observation encoding.is_json item at)) [
        | inl (o, good) ↦ rw (good, handle_item) (pass_on-Handles answer o s)
        | inr (x, bad) ↦ rw (bad, handle_item) (count_parser_failure-Handles s)
      ]

  -- Two parts in sequence, where the second runs if no exception left the first.
  abbrev in_turn : Pipeline K × Bool → Pipeline K × Bool → Pipeline K × Bool
  in_turn first second = if first.1 then second else (first.0, false)

  in_turn-Handles :
      (s : Pipeline K) (m n : ℕ) (first second : Pipeline K × Bool)
      → Handles s first.0 m first.1
      → Handles first.0 second.0 n second.1
      → Handles s (in_turn first second).0 (m + n) (in_turn first second).1
  in_turn-Handles s m n (t, true) second h k = Handles-trans h k
  in_turn-Handles s m n (t, false) second h k = Handles-cancelled (m + n) h

  handle_items-Handles :
      (at : Instant) (items : List (Emitted F × Answer)) (s : Pipeline K)
      → Handles s
          (handle_items encoding at items s).0
          (length items)
          (handle_items encoding at items s).1
  unfolding handle_items
  handle_items-Handles at [] s = Handles-refl s
  handle_items-Handles at (item ∷ items) s =
      let first = handle_item encoding at item s in
      Handles-recount (omega arith) (
        in_turn-Handles s 1 (length items) first (handle_items encoding at items first.0)
          (handle_item-Handles at item s) (handle_items-Handles at items first.0))

  pub handle_run-Handles :
      (at : Instant) (run : ParserRun F) (s : Pipeline K)
      → Handles s (handle_run encoding at run s).0 (expected run) (handle_run encoding at run s).1
  unfolding handle_run
  handle_run-Handles at raised s = count_parser_failure-Handles s
  handle_run-Handles at (returned items) s = handle_items-Handles at items s

  -- The loops over the parsers and their observations leave the queue, the workers and the counts of
  -- frames alone, keep the window's table within its bound, and, unless an exception leaves them, count
  -- one outcome for each yielded value and for each parser that raised.
  pub handle_runs-Handles :
      (at : Instant) (runs : List (ParserRun F)) (s : Pipeline K)
      → Handles s
          (handle_runs encoding at runs s).0
          (expected_all runs)
          (handle_runs encoding at runs s).1
  unfolding handle_runs
  handle_runs-Handles at [] s = Handles-refl s
  handle_runs-Handles at (run ∷ runs) s =
      let first = handle_run encoding at run s in
      in_turn-Handles s (expected run) (expected_all runs) first
        (handle_runs encoding at runs first.0) (handle_run-Handles at run s)
        (handle_runs-Handles at runs first.0)

  -- A frame whose handling no exception leaves, neither a cancellation nor one of the fingerprint,
  -- counts as processed once, and each value that its parsers yielded and each parser that raised
  -- counts once: as emitted, as a duplicate, as a sink failure or as a parser failure.
  pub handle_frame_counts :
      (frame : PassiveFrame) (runs : List (ParserRun F)) (s : Pipeline K)
      → (handle_frame encoding frame runs s).1 ≡ true
      → (outcomes (handle_frame encoding frame runs s).0.counters
          ≡ outcomes s.counters + expected_all runs)
        × ((handle_frame encoding frame runs s).0.counters.processed_frames
            ≡ s.counters.processed_frames + 1)
  unfolding handle_frame
  handle_frame_counts frame runs s on =
      let h = handle_runs-Handles frame.observed_at runs s in
      elim (Bool-cases (handle_runs encoding frame.observed_at runs s).1) [
        | inl went ↦ rw (went, handle_frame) (h.counted went, rw h.processed)
        | inr cut ↦ absurd (ground arith)
      ]

  -- A handling that an exception leaves is not counted as processed.
  pub handle_frame_cancelled :
      (frame : PassiveFrame) (runs : List (ParserRun F)) (s : Pipeline K)
      → (handle_frame encoding frame runs s).1 ≡ false
      → (handle_frame encoding frame runs s).0.counters.processed_frames
        ≡ s.counters.processed_frames
  unfolding handle_frame
  handle_frame_cancelled frame runs s off =
      let h = handle_runs-Handles frame.observed_at runs s in
      elim (Bool-cases (handle_runs encoding frame.observed_at runs s).1) [
        | inl went ↦ absurd (ground arith)
        | inr cut ↦ rw (cut, handle_frame) h.processed
      ]
