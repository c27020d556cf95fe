-- ===== src/Passive/Examples.antt =====
-- passive.py: a small pipeline, and the theorems at it.
use codexnet.Passive.Pipeline.Handling.{
  without_fingerprint, judge, delivered, sink_cancelled, ParserRun, raised, returned, Encoding,
  count_parser_failure, count_duplicate, deliver, pass_on, handle_item, handle_items, handle_run,
  handle_runs, handle_frame,
}
use codexnet.Passive.Pipeline.{
  drained, Settings, Pipeline, idle_pipeline, new_pipeline, normalized, normalized_from, start,
  prepare_frame, enqueue, offer, submit_nowait,
}
use codexnet.Prelude.{ltb, List, [], ◌∷◌, none, some, true, false, arith, ◌+◌, ℕ, ◌≡◌, refl}
use codexnet.Prelude.Keys.{list_eq, list_beq, nat_eq}
use codexnet.Prelude.Text.{strip, codes}
use codexnet.Prelude.Result.{ok}
use codexnet.OrderedDict.{lookup, put, remove, move_to_end, set_last, pop_first, trim}
use codexnet.Passive.Types.{PassiveFrame, Unicode}
use codexnet.Passive.Observation.{
  RawObservation, observation, foreign, normalize_observation, utc, aware,
}
use codexnet.Passive.Dedupe.{DedupeSettings, Dedupe, is_duplicate, check_purged, admit, purge}
use codexnet.Passive.Dedupe.Window.{IsBounded}
use codexnet.Passive.Dedupe.Runs.{run_checks, no_resend}
use codexnet.Passive.Pipeline.Handling.Handled.{outcomes}
use codexnet.Passive.Pipeline.Handling.Accounting.{expected_all, handle_frame_counts}
use codexnet.Passive.Pipeline.Lifecycle.{
  wait_for_room, put_waiting, take_frame, complete_frame, begin_stop, cancel_workers, end_stop,
}
use codexnet.Passive.Pipeline.Schedule.{
  Reach, unmoved, moved, starts, submits, takes, works, completes, stops, cancels, ends,
}
use codexnet.Passive.Pipeline.Schedule.Accounted.{IsAccounted}
use codexnet.Passive.Pipeline.Schedule.Safety.{reached-IsAccounted}

abbrev unicode : Unicode
unicode = record {
  casefold = λ s. s;
  decode_replace = λ bytes. bytes;
  decode = λ bytes. some bytes;
}

-- fields that are numbers below 100, with themselves as fingerprints
abbrev encoding : Encoding ℕ ℕ
encoding = record { is_json = λ n. ltb n 100; fingerprint = λ o. some o.fields }

abbrev window : DedupeSettings
window = record { window = 10; capacity = 2 }

abbrev settings : Settings
settings = record {
  queue_size = 1;
  worker_count = 1;
  max_frame_bytes = 4;
  dedupe = window;
  parsers = (codes "arp", 1) ∷ [];
}

abbrev fresh : Pipeline ℕ
fresh = idle_pipeline settings

abbrev started : Pipeline ℕ
started = record fresh { accepting = true; workers = 1 }

abbrev frame : PassiveFrame
frame = record { protocol = codes "arp"; payload = 1 ∷ []; observed_at = 5; interface = none }

abbrev queued : Pipeline ℕ
queued = enqueue frame started

abbrev taken : Pipeline ℕ
taken = record queued { queue = []; in_flight = 1 }

abbrev seen : ℕ → RawObservation ℕ
seen n = record {
  kind = codes "k";
  fields = n;
  source = codes "s";
  observed_at = none;
  expires_at = none;
}

-- one observation twice, then a parser that raises
abbrev runs : List (ParserRun ℕ)
runs =
    returned (
      (observation (seen 7), record { now = 1; sink = delivered })
      ∷ (observation (seen 7), record { now = 2; sink = delivered })
      ∷ (foreign, record { now = 2; sink = delivered })
      ∷ [])
    ∷ raised
    ∷ []

abbrev cut : List (ParserRun ℕ)
cut = returned ((observation (seen 7), record { now = 1; sink = sink_cancelled }) ∷ []) ∷ []

-- What the runs below compute with.
program : Unit {0}
unfolding new_pipeline normalized normalized_from start prepare_frame enqueue offer submit_nowait
    normalize_observation utc is_duplicate check_purged admit purge lookup put remove move_to_end
    set_last pop_first trim count_parser_failure count_duplicate deliver judge without_fingerprint
    pass_on handle_item handle_items handle_run handle_runs handle_frame wait_for_room put_waiting
    take_frame complete_frame begin_stop cancel_workers end_stop list_beq run_checks strip
program = tt

created : new_pipeline unicode 1 1 4 window ((codes "arp", 1) ∷ []) ≡ ok fresh
unfolding program
created = refl

starting : start fresh ≡ ok started
unfolding program
starting = refl

submitting : submit_nowait unicode (codes "arp") (1 ∷ []) (aware 5) none started ≡ ok (queued, true)
unfolding program
submitting = refl

taking : take_frame queued ≡ some (frame, taken)
unfolding program
taking = refl

abbrev handled : Pipeline ℕ
handled =
    (handle_run encoding 5 (returned ((foreign, record { now = 1; sink = delivered }) ∷ []))
      taken).0

abbrev stopped_pipeline : Pipeline ℕ
stopped_pipeline = end_stop (cancel_workers drained (begin_stop (complete_frame handled)))

-- start, submit_nowait, one handled frame, stop with a complete drain
stopping : Reach unicode encoding fresh stopped_pipeline
unfolding program
stopping =
    moved
      (moved
        (moved
          (moved
            (moved
              (moved
                (moved (moved unmoved (starts refl starting))
                  (submits (codes "arp") (1 ∷ []) (aware 5) none true submitting))
                (takes frame taking))
              (works 5 (returned ((foreign, record { now = 1; sink = delivered }) ∷ []))
                (omega arith) refl))
            (completes (omega arith) refl))
          (stops refl))
        (cancels drained refl refl refl (λ is. (refl, refl)) refl))
      (ends refl refl refl)

reached-IsAccounted_example : IsAccounted stopped_pipeline
reached-IsAccounted_example =
    reached-IsAccounted unicode encoding 1 1 4 window ((codes "arp", 1) ∷ []) fresh stopped_pipeline
      created stopping

queued-IsAccounted : IsAccounted queued
unfolding program
queued-IsAccounted = record {
  room = omega arith;
  peak = omega arith;
  busy = omega arith;
  balance = refl;
  queued_fit = (omega arith, tt);
  waiting_fit = tt;
  window = record { fits = omega arith; distinct = tt };
  calm = λ shut. cc;
  halted = λ dead. cc;
}

went_on : (handle_frame encoding frame runs taken).1 ≡ true
unfolding program
went_on = refl

handle_frame_counts_example :
    (outcomes (handle_frame encoding frame runs taken).0.counters
      ≡ outcomes taken.counters + expected_all runs)
    × ((handle_frame encoding frame runs taken).0.counters.processed_frames
        ≡ taken.counters.processed_frames + 1)
handle_frame_counts_example = handle_frame_counts encoding frame runs taken went_on

cut_off : (handle_frame encoding frame cut taken).1 ≡ false
unfolding program
cut_off = refl

abbrev empty_window : Dedupe ℕ
empty_window = record { entries = []; evictions = 0 }

abbrev between : List (ℕ × ℕ)
between = (2, 8) ∷ (3, 7) ∷ []

empty-IsBounded : IsBounded window empty_window
empty-IsBounded = record { fits = omega arith; distinct = tt }

let_through : (is_duplicate window 1 7 empty_window).0 ≡ false
unfolding program
let_through = refl

no_eviction :
    (run_checks window between (is_duplicate window 1 7 empty_window).1).evictions
    ≡ (is_duplicate window 1 7 empty_window).1.evictions
unfolding program
no_eviction = refl

no_resend_example :
    (is_duplicate window 10 7
      (run_checks window between (is_duplicate window 1 7 empty_window).1)).0
    ≡ true
no_resend_example =
    no_resend window empty_window 1 10 7 between empty-IsBounded (omega arith) (omega arith)
      let_through (omega arith, (omega arith, tt)) no_eviction (omega arith)
