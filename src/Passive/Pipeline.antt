-- ===== src/Passive/Pipeline.antt =====
-- passive.py: `PassiveEventPipeline`, a bounded queue in front of isolated parsers and one sink.
pub mod Handling
pub mod Lifecycle
pub mod Schedule
use codexnet.Prelude.{
  ℕ, ◌+◌, ◌≡◌, Bool, true, false, not, ◌||◌, ◌&&◌, Option, none, some, List, [], ◌∷◌, ◌++◌, length,
  ltb, leb, nat_beq, max, if◌then◌else◌, any,
}
use codexnet.Prelude.Keys.{Eq, list_eq, nat_eq}
use codexnet.Prelude.Result.{Result, ok, err, ◌>>=◌, ◌>>◌, raise_if}
use codexnet.Prelude.Text.{Text, strip}
use codexnet.OrderedDict.{OrderedDict, lookup, put}
use codexnet.Passive.Types.{Instant, PassiveFrame, PassiveObservation, Unicode}
use codexnet.Passive.Observation.{
  Stamp, aware, Emitted, normalize_observation, utc, is_empty, ObservationError,
}
use codexnet.Passive.Dedupe.{Ticks, DedupeSettings, Dedupe, is_duplicate}

pub data PipelineError : Type 0 where
  bad_bounds bad_dedupe empty_parsers : PipelineError
  restarted not_accepting naive_time : PipelineError

pub record Settings : Type 0 where
  pub queue_size : ℕ
  pub worker_count : ℕ
  pub max_frame_bytes : ℕ
  pub dedupe : DedupeSettings
  -- how many parsers each normalised protocol name has
  pub parsers : OrderedDict Text ℕ

pub record Counters : Type 0 where
  pub submitted_frames : ℕ
  pub processed_frames : ℕ
  pub emitted_observations : ℕ
  pub duplicate_observations : ℕ
  pub parser_failures : ℕ
  pub sink_failures : ℕ
  pub oversized_frames : ℕ
  pub unsupported_frames : ℕ
  pub backpressure_rejections : ℕ
  pub incomplete_frames : ℕ
  pub queue_peak : ℕ

abbrev pub zero_counters : Counters
zero_counters = record {
  submitted_frames = 0;
  processed_frames = 0;
  emitted_observations = 0;
  duplicate_observations = 0;
  parser_failures = 0;
  sink_failures = 0;
  oversized_frames = 0;
  unsupported_frames = 0;
  backpressure_rejections = 0;
  incomplete_frames = 0;
  queue_peak = 0;
}

-- What is known of `stop`: the workers are not cancelled yet; or they are, behind a drain that ran out
-- of time or was complete; or a second `stop` or a cancellation of `stop` has interfered.
pub data Closing : Type 0 where
  still_open out_of_time drained interrupted : Closing

abbrev pub is_open : Closing → Bool
is_open still_open = true
is_open out_of_time = false
is_open drained = false
is_open interrupted = false

-- The pipeline object. `waiting` holds the frames of the submitters that `queue.put` blocks, so its
-- length is `_active_submitters`; `workers` counts the worker tasks, `ended` those of them
-- that have ended, and `lost` the frames whose handling an exception has left, which nothing counts
-- in the source; the counter of evictions stands in `dedupe`.
pub record Pipeline (K : Type 0) : Type 0 where
  pub settings : Settings
  pub queue : List PassiveFrame
  pub waiting : List PassiveFrame
  pub dedupe : Dedupe K
  pub workers : ℕ
  pub counters : Counters
  pub in_flight : ℕ
  pub accepting : Bool
  pub stopped : Bool
  pub ended : ℕ
  pub lost : ℕ
  pub closing : Closing

unfoldable pub normalized_from : Unicode → OrderedDict Text ℕ → List (Text × ℕ) → OrderedDict Text ℕ
normalized_from unicode d [] = d
normalized_from unicode d ((name, items) ∷ rest) =
    normalized_from unicode (put (unicode.casefold name) items d) rest

-- {name.casefold(): tuple(items) for name, items in parsers.items()}
unfoldable pub normalized : Unicode → List (Text × ℕ) → OrderedDict Text ℕ
normalized unicode = normalized_from unicode []

module _ {K : Type 0} where
  -- The object that the constructor leaves.
  abbrev pub idle_pipeline : Settings → Pipeline K
  idle_pipeline settings = record {
    settings = settings;
    queue = [];
    waiting = [];
    dedupe = record { entries = []; evictions = 0 };
    workers = 0;
    counters = zero_counters;
    in_flight = 0;
    accepting = false;
    stopped = false;
    ended = 0;
    lost = 0;
    closing = still_open;
  }

  -- PassiveEventPipeline(...)
  unfoldable pub new_pipeline :
      Unicode → ℕ → ℕ → ℕ → DedupeSettings → List (Text × ℕ) → Result PipelineError (Pipeline K)
  new_pipeline unicode queue_size worker_count max_frame_bytes dedupe parsers = do
    raise_if (ltb queue_size 1 || ltb worker_count 1 || ltb max_frame_bytes 1) bad_bounds
    raise_if (ltb dedupe.capacity 1) bad_dedupe
    let named = normalized unicode parsers
    raise_if (any (λ p. is_empty p.0 || nat_beq p.1 0) named) empty_parsers
    ok (
        idle_pipeline (record {
          queue_size = queue_size;
          worker_count = worker_count;
          max_frame_bytes = max_frame_bytes;
          dedupe = dedupe;
          parsers = named;
        }))

  unfoldable pub start : Pipeline K → Result PipelineError (Pipeline K)
  start s =
      if s.stopped
      then err restarted
      else if ltb 0 s.workers
      then ok s
      else ok (record s { accepting = true; workers = s.settings.worker_count })

  -- The frame to submit, or the counted reason to refuse it.
  unfoldable pub prepare_frame :
      Unicode
      → Text
      → List ℕ
      → Stamp
      → Option Text
      → Pipeline K
      → Result PipelineError (Pipeline K × Option PassiveFrame)
  prepare_frame unicode protocol payload observed_at interface s =
      let name = strip (unicode.casefold protocol) in
      let counters = s.counters in
      if nat_beq s.workers 0 || not s.accepting
      then err not_accepting
      else elim (lookup name s.settings.parsers) [
        | none ↦ ok (
          record s {
            counters = record counters { unsupported_frames = counters.unsupported_frames + 1 };
          },
          none,
        )
        | some _ ↦
            if ltb s.settings.max_frame_bytes (length payload)
            then ok (
              record s {
                counters = record counters { oversized_frames = counters.oversized_frames + 1 };
              },
              none,
            )
            else elim (utc observed_at) [
              | err e ↦ err naive_time
              | ok t ↦ ok (
                s,
                some (record {
                  protocol = name;
                  payload = payload;
                  observed_at = t;
                  interface = interface;
                }),
              )
            ]
      ]

  -- self._queue.put_nowait(frame), behind the test for room, and _record_submission()
  unfoldable pub enqueue : PassiveFrame → Pipeline K → Pipeline K
  enqueue frame s =
      let queue = s.queue ++ frame ∷ [] in
      let counters = s.counters in
      record s {
        queue = queue;
        counters = record counters {
          submitted_frames = counters.submitted_frames + 1;
          queue_peak = max counters.queue_peak (length queue);
        };
      }

  abbrev pub has_room : Pipeline K → Bool
  has_room s = ltb (length s.queue) s.settings.queue_size

  unfoldable pub offer : Option PassiveFrame → Pipeline K → Pipeline K × Bool
  offer none s = (s, false)
  offer (some frame) s =
      let counters = s.counters in
      if has_room s then (enqueue frame s, true) else (
        record s {
          counters = record counters {
            backpressure_rejections = counters.backpressure_rejections + 1;
          };
        },
        false,
      )

  unfoldable pub submit_nowait :
      Unicode
      → Text
      → List ℕ
      → Stamp
      → Option Text
      → Pipeline K
      → Result PipelineError (Pipeline K × Bool)
  submit_nowait unicode protocol payload observed_at interface s = do
    (s', frame) ← prepare_frame unicode protocol payload observed_at interface s
    ok (offer frame s')
