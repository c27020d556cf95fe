-- ===== src/Storage/Guard/Reserve.antt =====
-- What a passed check guarantees.
use codexnet.Prelude.{
  arith, refl, ◌⊎◌, ap, ◌++◌, if◌then◌else◌, ◌≡◌, Bool-cases, List, ℕ, inl, inr, true, false, [],
  ◌∷◌, ◌≤◌, ◌<◌, ◌*◌, ◌+◌, ◌-◌,
}
use mathlib.Core.Path.{subst}
use codexnet.Prelude.Text.{Text}
use native.Mathlib.Nat.{mul-le-mul_right}
use codexnet.Storage.Guard.{
  Text, FilePath, DiskStatus, DiskGuard, Surroundings, nearest, percentage, inspect, check,
}
use codexnet.Prelude.Result.{ok}

-- `round` gives a nearest hundredth: at most half a hundredth away from the quotient.
abbrev pub Rounds : Surroundings → Type 0
Rounds w =
    (part total : ℕ)
    → 0 < total
    → (2 * (w.rounded_percent part total * total) ≤ 20000 * part + total)
      × (20000 * part ≤ 2 * (w.rounded_percent part total * total) + total)

-- Neither the path nor any other above the base exists.
abbrev pub Missing : Surroundings → List Text → FilePath → Type 0
Missing w [] base = Unit
Missing w (name ∷ gone) base = (w.exists (name ∷ (gone ++ base)) ≡ false) × Missing w gone base

-- The measured path is the nearest that exists on the way to the root.
abbrev pub IsNearest : Surroundings → FilePath → FilePath → Type 0
IsNearest w path base =
    (gone : List Text) × (path ≡ gone ++ base)
    × Missing w gone base
    × ((w.exists base ≡ true) ⊎ (base ≡ []))

nearest-IsNearest : (w : Surroundings) (path : FilePath) → IsNearest w path (nearest w path)
unfolding nearest
nearest-IsNearest w [] = ([], refl, tt, inr refl)
nearest-IsNearest w (name ∷ parent) = elim (Bool-cases (w.exists (name ∷ parent))) [
  | inl there ↦ rw (there, if◌then◌else◌) ([], refl, tt, inl there)
  | inr missing ↦
      let (gone, at, none_there, base) = nearest-IsNearest w parent in
      rw (missing, if◌then◌else◌)
        (
          name ∷ gone,
          ap (λ p. name ∷ p) at,
          (subst (λ p. w.exists (name ∷ p) ≡ false) at missing, none_there),
          base,
        )
]

percent_bound :
    (least percent total : ℕ) → least * 100 ≤ percent → least * 100 * total ≤ percent * total
percent_bound least percent total h = mul-le-mul_right total h

check-inv :
    (w : Surroundings) (guard : DiskGuard) (path : FilePath) (required : ℕ) (s : DiskStatus)
    → check w guard path required ≡ ok s
    → ((inspect w guard path required).allowed ≡ true) × (inspect w guard path required ≡ s)
unfolding check
check-inv w guard path required s h = elim (Bool-cases (inspect w guard path required).allowed) [
  | inl allowed ↦ (allowed, ground arith)
  | inr paused ↦ absurd (ground arith)
]

inspect_reserves :
    (w : Surroundings) (guard : DiskGuard) (path : FilePath) (required : ℕ)
    → Rounds w
    → (inspect w guard path required).allowed ≡ true
    → let usage = guard.usage_probe (nearest w path) in
      (guard.least_bytes ≤ usage.free - required)
      × (0 < usage.total
          → 200 * (guard.least_percent * usage.total)
            ≤ 20000 * (usage.free - required) + usage.total)
unfolding inspect percentage
inspect_reserves w guard path required rounds h =
    let usage = guard.usage_probe (nearest w path) in
    let remaining = usage.free - required in
    (
      ground arith,
      λ some_total.
          let near = (rounds remaining usage.total some_total).0 in
          let enough : guard.least_percent * 100 ≤ w.rounded_percent remaining usage.total =
            ground arith in
          let scaled =
            percent_bound guard.least_percent (w.rounded_percent remaining usage.total) usage.total
              enough in
          omega (arith, near, scaled),
    )

-- A passed check measured the nearest directory that exists, and on its file system the write
-- leaves the least number of free bytes and, but for half a hundredth of a percent of the total,
-- the least percentage.
pub check_reserves :
    (w : Surroundings) (guard : DiskGuard) (path : FilePath) (required : ℕ) (s : DiskStatus)
    → Rounds w
    → check w guard path required ≡ ok s
    → let usage = guard.usage_probe s.checked_path in
      IsNearest w path s.checked_path
      × (guard.least_bytes ≤ usage.free - required)
      × (0 < usage.total
          → 200 * (guard.least_percent * usage.total)
            ≤ 20000 * (usage.free - required) + usage.total)
unfolding inspect
check_reserves w guard path required s rounds h =
    let (allowed, at) = check-inv w guard path required s h in
    let (bytes, percent) = inspect_reserves w guard path required rounds allowed in
    subst
      (λ t.
        IsNearest w path t.checked_path
        × (guard.least_bytes ≤ (guard.usage_probe t.checked_path).free - required)
        × (0 < (guard.usage_probe t.checked_path).total
            → 200 * (guard.least_percent * (guard.usage_probe t.checked_path).total)
              ≤ 20000 * ((guard.usage_probe t.checked_path).free - required)
                + (guard.usage_probe t.checked_path).total))
      at (nearest-IsNearest w path, bytes, percent)
