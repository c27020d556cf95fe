-- ===== src/Storage/Guard.antt =====
-- storage.py: `DiskGuard`.
pub mod Reserve
use codexnet.Prelude.{[], ◌∷◌, ◌*◌, leb, nat_beq, if◌then◌else◌, ◌-◌, Bool, List, ℕ, not, ◌&&◌}
use codexnet.Prelude.Text.{Text}
use codexnet.Prelude.Result.{Result, ok, ◌>>◌, raise_if}

-- What the guard raises: `LowDiskSpace` with the thresholds of its message.
pub data GuardError : Type 0 where
  low_disk_space : ℕ → ℕ → GuardError

-- A path as its components, the last one first: the parent of the root is the root.
abbrev pub FilePath : Type 0
FilePath = List Text

pub record Usage : Type 0 where
  pub total : ℕ
  pub free : ℕ

-- remaining_percent is in hundredths of a percent.
pub record DiskStatus : Type 0 where
  pub checked_path : FilePath
  pub total_bytes : ℕ
  pub free_bytes : ℕ
  pub required_bytes : ℕ
  pub remaining_bytes : ℕ
  pub remaining_percent : ℕ
  pub minimum_free_bytes : ℕ
  pub minimum_free_percent : ℕ
  pub allowed : Bool

pub record DiskGuard : Type 0 where
  pub least_bytes : ℕ
  pub least_percent : ℕ
  pub usage_probe : FilePath → Usage

-- The file system's answer to `exists`, and `round(part * 100 / total, 2)` in hundredths.
pub record Surroundings : Type 0 where
  pub exists : FilePath → Bool
  pub rounded_percent : ℕ → ℕ → ℕ

module _ (w : Surroundings) where
  -- while not candidate.exists() and candidate != candidate.parent
  unfoldable pub nearest : FilePath → FilePath
  nearest [] = []
  nearest (name ∷ parent) =
      let above = nearest parent in if w.exists (name ∷ parent) then name ∷ parent else above

  unfoldable pub percentage : ℕ → ℕ → ℕ
  percentage remaining total = if nat_beq total 0 then 0 else w.rounded_percent remaining total

  -- Byte counts are natural numbers, so the `ValueError` for a negative one is not reached.
  unfoldable pub inspect : DiskGuard → FilePath → ℕ → DiskStatus
  unfolding nearest percentage
  inspect guard path required =
      let candidate = nearest path in
      let usage = guard.usage_probe candidate in
      let remaining = usage.free - required in
      let percent = percentage remaining usage.total in
      record {
        checked_path = candidate;
        total_bytes = usage.total;
        free_bytes = usage.free;
        required_bytes = required;
        remaining_bytes = remaining;
        remaining_percent = percent;
        minimum_free_bytes = guard.least_bytes;
        minimum_free_percent = guard.least_percent;
        allowed = leb guard.least_bytes remaining && leb (guard.least_percent * 100) percent;
      }

  unfoldable pub check : DiskGuard → FilePath → ℕ → Result GuardError DiskStatus
  check guard path required = do
    let status = inspect guard path required
    raise_if (not status.allowed)
        (low_disk_space status.minimum_free_bytes status.minimum_free_percent)
    ok status
