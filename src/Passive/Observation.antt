-- ===== src/Passive/Observation.antt =====
-- passive.py: `_utc` and `_normalize_observation`, through which parser output goes.
use codexnet.Prelude.{Bool, true, false, ◌||◌, not, Option, none, some, [], ◌∷◌}
use codexnet.Prelude.Result.{Result, ok, err, ◌>>=◌, ◌>>◌, raise_if}
use codexnet.Prelude.Text.{Text}
use codexnet.Passive.Types.{Instant, PassiveObservation}

-- A `datetime`: without a time zone, or an instant of a zone.
pub data Stamp : Type 0 where
  naive aware : Instant → Stamp

-- What `_normalize_observation` and `_utc` raise.
pub data ObservationError : Type 0 where
  not_an_observation empty_kind_or_source not_json naive_timestamp : ObservationError

unfoldable pub utc : Stamp → Result ObservationError Instant
utc (naive t) = err naive_timestamp
utc (aware t) = ok t

-- An observation as a parser builds it, before its times are normalised.
pub record RawObservation (F : Type 0) : Type 0 where
  pub kind : Text
  pub fields : F
  pub source : Text
  pub observed_at : Option Stamp
  pub expires_at : Option Stamp

-- One value that a parser yields: the parsers are Python code and may yield anything.
pub data Emitted (F : Type 0) : Type 0 where
  foreign : Emitted F
  observation : RawObservation F → Emitted F

abbrev pub is_empty : Text → Bool
is_empty [] = true
is_empty (c ∷ cs) = false

abbrev utc? : Option Stamp → Result ObservationError (Option Instant)
utc? none = ok none
utc? (some s) = do t ← utc s; ok (some t)

-- observation.observed_at or frame_time
abbrev stamp_or : Option Stamp → Instant → Stamp
stamp_or none t = aware t
stamp_or (some s) t = s

-- `is_json` tells whether `json.dumps(fields, allow_nan=False)` accepts the fields.
unfoldable pub normalize_observation :
    {F : Type 0} → (F → Bool) → Emitted F → Instant → Result ObservationError (PassiveObservation F)
normalize_observation is_json foreign frame_time = err not_an_observation
normalize_observation is_json (observation o) frame_time = do
  raise_if (is_empty o.kind || is_empty o.source) empty_kind_or_source
  raise_if (not (is_json o.fields)) not_json
  observed_at ← utc (stamp_or o.observed_at frame_time)
  expires_at ← utc? o.expires_at
  ok record {
    kind = o.kind;
    fields = o.fields;
    source = o.source;
    observed_at = some observed_at;
    expires_at = expires_at;
  }
