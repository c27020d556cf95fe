-- ===== src/Passive/Dedupe/Window.antt =====
-- passive.py, `_is_duplicate`: the bound, the exact test and the window over a run of checks.
use codexnet.Prelude.{
  ◌+◌, ◌≤◌, ◌<◌, ◌≡◌, refl, ◌↔◌, ◌⊎◌, inl, inr, true, false, none, some, [], ◌∷◌, arith, length,
  ltb, nat_beq, Bool-cases, Option-cases,
}
use codexnet.Prelude.Keys.{Eq}
use codexnet.OrderedDict.{OrderedDict, lookup, set_last, move_to_end, trim, Distinct}
use codexnet.OrderedDict.Keys.{set_last-Distinct, move_to_end-Distinct, trim-Distinct}
use codexnet.OrderedDict.Size.{length-set_last-le, length-move_to_end, length-trim-le}
use codexnet.Passive.Dedupe.{
  Ticks, DedupeSettings, Dedupe, purge, admit, check_purged, is_duplicate,
}

module _ {K : Type 0} ⦃e : Eq K⦄ where
  length-purge-le : (now : Ticks) (d : OrderedDict K Ticks) → length (purge now d) ≤ length d
  unfolding purge
  length-purge-le now [] = omega arith
  length-purge-le now ((k, t) ∷ d) = ground (arith, length-purge-le now d)

  purge-Distinct : (now : Ticks) (d : OrderedDict K Ticks) → Distinct d → Distinct (purge now d)
  unfolding purge
  purge-Distinct now [] h = tt
  purge-Distinct now ((k, t) ∷ d) h = ground (arith, purge-Distinct now d h.1)

  -- What has not run out survives the purge.
  pub lookup-purge :
      (now : Ticks) (k : K) (t : Ticks) (d : OrderedDict K Ticks)
      → lookup k d ≡ some t
      → now < t
      → lookup k (purge now d) ≡ some t
  unfolding purge lookup
  lookup-purge now k t [] h lt = cc
  lookup-purge now k t ((j, u) ∷ d) h lt = ground (arith, lookup-purge now k t d)

  absent-purge :
      (now : Ticks) (k : K) (d : OrderedDict K Ticks)
      → lookup k d ≡ none
      → lookup k (purge now d) ≡ none
  unfolding purge lookup
  absent-purge now k [] h = refl
  absent-purge now k ((j, u) ∷ d) h = ground (arith, absent-purge now k d)

  -- And the purge invents nothing.
  pub lookup_of_purge :
      (now : Ticks) (k : K) (t : Ticks) (d : OrderedDict K Ticks)
      → Distinct d
      → lookup k (purge now d) ≡ some t
      → lookup k d ≡ some t
  unfolding purge lookup
  lookup_of_purge now k t [] u h = h
  lookup_of_purge now k t ((j, v) ∷ d) u h =
      ground (arith, lookup_of_purge now k t d, e.beq_iff j k, absent-purge now j d)

pub record IsBounded {K : Type 0} ⦃e : Eq K⦄ (c : DedupeSettings) (s : Dedupe K) : Type 0 where
  pub fits : length s.entries ≤ c.capacity
  pub distinct : Distinct s.entries

module _ {K : Type 0} ⦃e : Eq K⦄ (c : DedupeSettings) where
  pub entries-admit :
      (now : Ticks) (fp : K) (s : Dedupe K)
      → (admit c now fp s).entries ≡ trim c.capacity (set_last fp (now + c.window) s.entries)
  unfolding admit trim
  entries-admit now fp s = ground arith

  admit-IsBounded :
      (now : Ticks) (fp : K) (s : Dedupe K) → IsBounded c s → IsBounded c (admit c now fp s)
  admit-IsBounded now fp s v =
      let written = set_last fp (now + c.window) s.entries in
      record {
        fits = rw (entries-admit now fp s) (
            length-trim-le c.capacity written
              (omega (arith, length-set_last-le fp (now + c.window) s.entries, v.fits)));
        distinct = rw (entries-admit now fp s) (
            trim-Distinct c.capacity written
              (set_last-Distinct fp (now + c.window) s.entries v.distinct));
      }

  -- The three branches of the test.
  pub check_live :
      (now : Ticks) (fp : K) (s : Dedupe K) (t : Ticks)
      → lookup fp s.entries ≡ some t
      → now < t
      → check_purged c now fp s ≡ (true, record s { entries = move_to_end fp s.entries })
  unfolding check_purged
  check_live now fp s t h lt = ground arith

  pub check_stale :
      (now : Ticks) (fp : K) (s : Dedupe K)
      → ((t : Ticks) → lookup fp s.entries ≡ some t → t ≤ now)
      → check_purged c now fp s ≡ (false, admit c now fp s)
  unfolding check_purged
  check_stale now fp s old = elim (Option-cases (lookup fp s.entries)) [
    | inl miss ↦ ground arith
    | inr (t, hit) ↦ ground (arith, old t hit)
  ]

  -- Either branch, with what is known in it.
  pub live-or-stale :
      (now : Ticks) (fp : K) (s : Dedupe K)
      → ((t : Ticks) × (lookup fp s.entries ≡ some t) × (now < t))
        ⊎ ((t : Ticks) → lookup fp s.entries ≡ some t → t ≤ now)
  live-or-stale now fp s = elim (Option-cases (lookup fp s.entries)) [
    | inl miss ↦ inr (λ t h. ground arith)
    | inr (t, hit) ↦ elim (Bool-cases (ltb now t)) [
      | inl lt ↦ inl (t, hit, ground arith)
      | inr ge ↦ inr (λ u h. ground arith)
    ]
  ]

  check_purged-IsBounded :
      (now : Ticks) (fp : K) (s : Dedupe K)
      → IsBounded c s
      → IsBounded c (check_purged c now fp s).1
  check_purged-IsBounded now fp s v = elim (live-or-stale now fp s) [
    | inl (t, hit, lt) ↦ rw (check_live now fp s t hit lt) (record {
      fits = rw (length-move_to_end fp s.entries v.distinct) v.fits;
      distinct = move_to_end-Distinct fp s.entries v.distinct;
    })
    | inr old ↦ rw (check_stale now fp s old) (admit-IsBounded now fp s v)
  ]

  pub purged-IsBounded :
      (now : Ticks) (s : Dedupe K)
      → IsBounded c s
      → IsBounded c (record s { entries = purge now s.entries })
  purged-IsBounded now s v = record {
    fits = omega (arith, length-purge-le now s.entries, v.fits);
    distinct = purge-Distinct now s.entries v.distinct;
  }

  -- A check keeps a table of fingerprints within its capacity, with no fingerprint twice.
  pub is_duplicate-IsBounded :
      (now : Ticks) (fp : K) (s : Dedupe K)
      → IsBounded c s
      → IsBounded c (is_duplicate c now fp s).1
  unfolding is_duplicate
  is_duplicate-IsBounded now fp s v = elim (Bool-cases (nat_beq c.window 0)) [
    | inl off ↦ rw (off, is_duplicate) v
    | inr on ↦
        rw (on, is_duplicate)
          (check_purged-IsBounded now fp (record s { entries = purge now s.entries })
            (purged-IsBounded now s v))
  ]

  -- In a table within its bounds, an observation is a duplicate exactly if there is a window and
  -- its fingerprint is remembered with an end that the clock has not reached.
  pub is_duplicate_iff :
      (now : Ticks) (fp : K) (s : Dedupe K)
      → IsBounded c s
      → ((is_duplicate c now fp s).0 ≡ true)
        ↔ ((0 < c.window) × ((t : Ticks) × (lookup fp s.entries ≡ some t) × (now < t)))
  unfolding is_duplicate check_purged
  is_duplicate_iff now fp s v = (
    λ h. (
      ground arith,
      elim (live-or-stale now fp s) [
        | inl found ↦ found
        | inr old ↦ absurd (ground (arith, refused h old))
      ],
    ),
    λ (on, (t, hit, lt)). ground (arith, lookup-purge now fp t s.entries hit lt),
  )
    where
      refused :
          (is_duplicate c now fp s).0 ≡ true
          → ((t : Ticks) → lookup fp s.entries ≡ some t → t ≤ now)
          → ⊥
      refused h old = elim (Option-cases (lookup fp (purge now s.entries))) [
        | inl miss ↦ ground arith
        | inr (t, hit) ↦ ground (arith, old t (lookup_of_purge now fp t s.entries v.distinct hit))
      ]
