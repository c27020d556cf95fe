-- ===== src/Passive/Dedupe.antt =====
-- passive.py: `_is_duplicate`, the bounded window in which an observation is not sent twice.
pub mod Window
pub mod Runs
use codexnet.Prelude.{
  ℕ, ◌+◌, ◌≡◌, Bool, true, false, Option, none, some, List, [], ◌∷◌, length, ltb, leb, nat_beq,
  if◌then◌else◌,
}
use codexnet.Prelude.Keys.{Eq}
use codexnet.OrderedDict.{OrderedDict, lookup, set_last, move_to_end, pop_first}

-- Readings of the monotonic clock, as whole ticks.
abbrev pub Ticks : Type 0
Ticks = ℕ

pub record DedupeSettings : Type 0 where
  pub window : Ticks
  pub capacity : ℕ

-- The remembered fingerprints with the end of their windows, and the counter of evictions.
pub record Dedupe (K : Type 0) : Type 0 where
  pub entries : OrderedDict K Ticks
  pub evictions : ℕ

-- while self._dedupe and next(iter(self._dedupe.values())) <= now: popitem(last=False)
unfoldable pub purge {ℓ} : {K : Type ℓ} → Ticks → OrderedDict K Ticks → OrderedDict K Ticks
purge now [] = []
purge now ((k, t) ∷ d) = let rest = purge now d in if leb t now then rest else (k, t) ∷ d

module _ {K : Type 0} ⦃e : Eq K⦄ (c : DedupeSettings) where
  -- The write of a new fingerprint, with the eviction past the capacity.
  unfoldable pub admit : Ticks → K → Dedupe K → Dedupe K
  admit now fp s =
      let written = set_last fp (now + c.window) s.entries in
      if ltb c.capacity (length written)
      then record { entries = pop_first written; evictions = s.evictions + 1 }
      else record { entries = written; evictions = s.evictions }

  -- The test behind the purge.
  unfoldable pub check_purged : Ticks → K → Dedupe K → Bool × Dedupe K
  check_purged now fp s = elim (lookup fp s.entries) [
    | none ↦ (false, admit now fp s)
    | some t ↦
        if ltb now t
        then (true, record s { entries = move_to_end fp s.entries })
        else (false, admit now fp s)
  ]

  unfoldable pub is_duplicate : Ticks → K → Dedupe K → Bool × Dedupe K
  is_duplicate now fp s =
      if nat_beq c.window 0
      then (false, s)
      else check_purged now fp (record s { entries = purge now s.entries })
