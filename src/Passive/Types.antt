-- ===== src/Passive/Types.antt =====
-- passive.py: the frames and the observations that the parsers and the pipeline exchange.
use codexnet.Prelude.{ℕ, Option, List}
use codexnet.Prelude.Text.{Text}

-- An aware `datetime` in UTC, in microseconds.
abbrev pub Instant : Type 0
Instant = ℕ

-- timedelta(seconds=1)
abbrev pub second : ℕ
second = 1_000_000

pub record PassiveFrame : Type 0 where
  pub protocol : Text
  pub payload : List ℕ
  pub observed_at : Instant
  pub interface : Option Text

-- `F` is what the observation's `fields` mapping holds.
pub record PassiveObservation {ℓ} (F : Type ℓ) : Type ℓ where
  pub kind : Text
  pub fields : F
  pub source : Text
  pub observed_at : Option Instant
  pub expires_at : Option Instant

-- What the parsers take of Python's Unicode tables.
pub record Unicode : Type 0 where
  pub casefold : Text → Text
  -- raw.decode("utf-8", errors="replace")
  pub decode_replace : List ℕ → Text
  -- raw.decode("utf-8"), with `none` for the UnicodeDecodeError
  pub decode : List ℕ → Option Text
