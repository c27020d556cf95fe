-- ===== src/Passive/Pipeline/Handling.antt =====
-- passive.py, `_handle_frame`: one frame through its parsers, the window and the sink.
pub mod Accounting
pub mod Handled
use codexnet.Prelude.{
  nat_beq, ℕ, ◌+◌, Bool, true, false, List, [], ◌∷◌, if◌then◌else◌, Option, none, some,
}
use codexnet.Prelude.Keys.{Eq}
use codexnet.Prelude.Result.{Result, ok, err}
use codexnet.Passive.Types.{Instant, PassiveFrame, PassiveObservation}
use codexnet.Passive.Observation.{Emitted, normalize_observation}
use codexnet.Passive.Dedupe.{Ticks, Dedupe, is_duplicate, purge}
use codexnet.Passive.Pipeline.{Pipeline, Counters}

-- What the awaited sink does: it returns, raises an exception, or is cancelled.
pub data SinkOutcome : Type 0 where
  delivered sink_failed sink_cancelled : SinkOutcome

-- The environment's answers to one observation: the reading of the clock and the sink's outcome.
pub record Answer : Type 0 where
  pub now : Ticks
  pub sink : SinkOutcome

-- One call of a parser: it raises, or yields values.
pub data ParserRun (F : Type 0) : Type 0 where
  raised : ParserRun F
  returned : List (Emitted F × Answer) → ParserRun F

-- `json.dumps` as a test, and the SHA-256 digest of the canonical JSON of an observation, `none`
-- where `_fingerprint` raises: text with a surrogate has no UTF-8 form, and keys may not be ordered.
pub record Encoding (F K : Type 0) : Type 0 where
  pub is_json : F → Bool
  pub fingerprint : PassiveObservation F → Option K

module _ {K : Type 0} where
  unfoldable pub count_parser_failure : Pipeline K → Pipeline K
  count_parser_failure s =
      let c = s.counters in
      record s { counters = record c { parser_failures = c.parser_failures + 1 } }

  unfoldable pub count_duplicate : Dedupe K → Pipeline K → Pipeline K
  count_duplicate dedupe s =
      let c = s.counters in
      record s {
        dedupe = dedupe;
        counters = record c { duplicate_observations = c.duplicate_observations + 1 };
      }

  -- The sink's outcome; `false` is an exception that leaves the loops, here `CancelledError`.
  unfoldable pub deliver : SinkOutcome → Dedupe K → Pipeline K → Pipeline K × Bool
  deliver delivered dedupe s =
      let c = s.counters in
      (
        record s {
          dedupe = dedupe;
          counters = record c { emitted_observations = c.emitted_observations + 1 };
        },
        true,
      )
  deliver sink_failed dedupe s =
      let c = s.counters in
      (
        record s { dedupe = dedupe; counters = record c { sink_failures = c.sink_failures + 1 } },
        true,
      )
  deliver sink_cancelled dedupe s = (record s { dedupe = dedupe }, false)

module _ {F K : Type 0} ⦃e : Eq K⦄ (encoding : Encoding F K) where
  -- The window's verdict on a fingerprint, and the sink's on what is new.
  unfoldable pub judge : Answer → K → Pipeline K → Pipeline K × Bool
  judge answer fp s =
      let (duplicate, dedupe) = is_duplicate s.settings.dedupe answer.now fp s.dedupe in
      if duplicate then (count_duplicate dedupe s, true) else deliver answer.sink dedupe s

  -- `_is_duplicate` when `_fingerprint` raises: without a window it is not called, and otherwise
  -- its exception, which nothing catches, comes behind the purge.
  unfoldable pub without_fingerprint : Answer → Pipeline K → Pipeline K × Bool
  without_fingerprint answer s =
      if nat_beq s.settings.dedupe.window 0
      then deliver answer.sink s.dedupe s
      else let d = s.dedupe in
        (record s { dedupe = record d { entries = purge answer.now d.entries } }, false)

  -- A normalised observation.
  unfoldable pub pass_on : Answer → PassiveObservation F → Pipeline K → Pipeline K × Bool
  pass_on answer o s = elim (encoding.fingerprint o) [
    | none ↦ without_fingerprint answer s
    | some fp ↦ judge answer fp s
  ]

  -- The body of the loop over `observations`.
  unfoldable pub handle_item : Instant → Emitted F × Answer → Pipeline K → Pipeline K × Bool
  handle_item frame_time (item, answer) s =
      elim (normalize_observation encoding.is_json item frame_time) [
        | err e ↦ (count_parser_failure s, true)
        | ok o ↦ pass_on answer o s
      ]

  unfoldable pub handle_items : Instant → List (Emitted F × Answer) → Pipeline K → Pipeline K × Bool
  handle_items frame_time [] s = (s, true)
  handle_items frame_time (item ∷ items) s =
      let (s', goes_on) = handle_item frame_time item s in
      let rest = handle_items frame_time items s' in if goes_on then rest else (s', false)

  -- The body of the loop over the parsers of the protocol.
  unfoldable pub handle_run : Instant → ParserRun F → Pipeline K → Pipeline K × Bool
  handle_run frame_time raised s = (count_parser_failure s, true)
  handle_run frame_time (returned items) s = handle_items frame_time items s

  unfoldable pub handle_runs : Instant → List (ParserRun F) → Pipeline K → Pipeline K × Bool
  handle_runs frame_time [] s = (s, true)
  handle_runs frame_time (run ∷ runs) s =
      let (s', goes_on) = handle_run frame_time run s in
      let rest = handle_runs frame_time runs s' in if goes_on then rest else (s', false)

  -- _handle_frame: the frame counts as processed unless an exception leaves the loops.
  unfoldable pub handle_frame : PassiveFrame → List (ParserRun F) → Pipeline K → Pipeline K × Bool
  handle_frame frame runs s =
      let (s', goes_on) = handle_runs frame.observed_at runs s in
      let c = s'.counters in
      if goes_on
      then (record s' { counters = record c { processed_frames = c.processed_frames + 1 } }, true)
      else (s', false)
