-- ===== src/Passive/Dedupe/Runs.antt =====
-- passive.py, `_is_duplicate`: over a run of checks, what was let through once is held back until
-- its window ends.
use codexnet.Prelude.{
  ◌+◌, ◌≤◌, ◌<◌, ◌≡◌, ◌≢◌, ◌∙◌, inl, inr, true, false, some, List, [], ◌∷◌, arith, nat_beq,
  Bool-cases, All,
}
use codexnet.Prelude.Keys.{Eq}
use codexnet.OrderedDict.{lookup}
use codexnet.OrderedDict.Lookup.{lookup-set_last, lookup-move_to_end}
use codexnet.OrderedDict.Size.{lookup-trim-set_last}
use codexnet.Passive.Dedupe.{
  Ticks, DedupeSettings, Dedupe, purge, admit, check_purged, is_duplicate,
}
use codexnet.Passive.Dedupe.Window.{
  IsBounded, is_duplicate-IsBounded, is_duplicate_iff, lookup-purge, check_live, check_stale,
  live-or-stale, entries-admit,
}

module _ {K : Type 0} ⦃e : Eq K⦄ (c : DedupeSettings) where
  -- One check after another, at the given readings of the clock.
  unfoldable pub run_checks : List (Ticks × K) → Dedupe K → Dedupe K
  run_checks [] s = s
  run_checks ((now, fp) ∷ rest) s = run_checks rest (is_duplicate c now fp s).1

  run_checks-IsBounded :
      (checks : List (Ticks × K)) (s : Dedupe K) → IsBounded c s → IsBounded c (run_checks checks s)
  unfolding run_checks
  run_checks-IsBounded [] s v = v
  run_checks-IsBounded ((now, fp) ∷ rest) s v =
      run_checks-IsBounded rest (is_duplicate c now fp s).1 (is_duplicate-IsBounded c now fp s v)

  check_purged-evictions-ge :
      (now : Ticks) (fp : K) (s : Dedupe K) → s.evictions ≤ (check_purged c now fp s).1.evictions
  unfolding check_purged admit
  check_purged-evictions-ge now fp s = ground arith

  evictions-ge :
      (now : Ticks) (fp : K) (s : Dedupe K) → s.evictions ≤ (is_duplicate c now fp s).1.evictions
  unfolding is_duplicate
  evictions-ge now fp s = elim (Bool-cases (nat_beq c.window 0)) [
    | inl off ↦ rw (off, is_duplicate) (omega arith)
    | inr on ↦
        rw (on, is_duplicate)
          (check_purged-evictions-ge now fp (record s { entries = purge now s.entries }))
  ]

  run-evictions-ge :
      (checks : List (Ticks × K)) (s : Dedupe K) → s.evictions ≤ (run_checks checks s).evictions
  unfolding run_checks
  run-evictions-ge [] s = omega arith
  run-evictions-ge ((now, fp) ∷ rest) s =
      omega (arith, run-evictions-ge rest (is_duplicate c now fp s).1, evictions-ge now fp s)

  admit_keeps :
      (now : Ticks) (j fp : K) (u : Ticks) (s : Dedupe K)
      → lookup fp s.entries ≡ some u
      → j ≢ fp
      → (admit c now j s).evictions ≡ s.evictions
      → lookup fp (admit c now j s).entries ≡ some u
  unfolding admit
  admit_keeps now j fp u s h ne same =
      ground (arith, lookup-set_last j fp (now + c.window) s.entries, e.beq_iff j fp)

  check_purged_keeps :
      (now : Ticks) (j fp : K) (u : Ticks) (s : Dedupe K)
      → lookup fp s.entries ≡ some u
      → now < u
      → (check_purged c now j s).1.evictions ≡ s.evictions
      → lookup fp (check_purged c now j s).1.entries ≡ some u
  check_purged_keeps now j fp u s h lt same = elim (live-or-stale c now j s) [
    | inl (t, hit, lt') ↦
        rw (check_live c now j s t hit lt') (lookup-move_to_end j fp s.entries ∙ h)
    | inr old ↦ rw (check_stale c now j s old) (stale old (rw (check_stale c now j s old) at same))
  ]
    where
      stale :
          ((t : Ticks) → lookup j s.entries ≡ some t → t ≤ now)
          → (admit c now j s).evictions ≡ s.evictions
          → lookup fp (admit c now j s).entries ≡ some u
      stale old kept =
          admit_keeps now j fp u s h (λ eq. absurd (omega (arith, old u (rw eq h), lt))) kept

  -- A check that evicts nothing keeps every entry that has not run out.
  is_duplicate_keeps :
      (now : Ticks) (j fp : K) (u : Ticks) (s : Dedupe K)
      → lookup fp s.entries ≡ some u
      → now < u
      → (is_duplicate c now j s).1.evictions ≡ s.evictions
      → lookup fp (is_duplicate c now j s).1.entries ≡ some u
  unfolding is_duplicate
  is_duplicate_keeps now j fp u s h lt same = elim (Bool-cases (nat_beq c.window 0)) [
    | inl off ↦ rw (off, is_duplicate) h
    | inr on ↦
        rw (on, is_duplicate)
          (check_purged_keeps now j fp u (record s { entries = purge now s.entries })
            (lookup-purge now fp u s.entries h lt) lt (rw (on, is_duplicate) at same))
  ]

  run_keeps :
      (checks : List (Ticks × K)) (fp : K) (u : Ticks) (s : Dedupe K)
      → lookup fp s.entries ≡ some u
      → All (λ k. k.0 < u) checks
      → (run_checks checks s).evictions ≡ s.evictions
      → lookup fp (run_checks checks s).entries ≡ some u
  unfolding run_checks
  run_keeps [] fp u s h early same = h
  run_keeps ((now, j) ∷ rest) fp u s h early same =
      let s' = (is_duplicate c now j s).1 in
      let up = evictions-ge now j s in
      let more = run-evictions-ge rest s' in
      run_keeps rest fp u s' (is_duplicate_keeps now j fp u s h early.0 (omega arith)) early.1
        (omega arith)

  admitted_until :
      (now : Ticks) (fp : K) (s : Dedupe K)
      → 0 < c.capacity
      → 0 < c.window
      → (is_duplicate c now fp s).0 ≡ false
      → lookup fp (is_duplicate c now fp s).1.entries ≡ some (now + c.window)
  admitted_until now fp s room on fresh =
      let s' = record s { entries = purge now s.entries } in
      let kept = lookup-trim-set_last c.capacity fp (now + c.window) (purge now s.entries) room in
      elim (live-or-stale c now fp s') [
        | inl (t, hit, lt) ↦
            absurd (unfold is_duplicate in ground (arith, check_live c now fp s' t hit lt))
        | inr old ↦
            unfold is_duplicate in
            ground (arith, check_stale c now fp s' old, entries-admit c now fp s', kept)
      ]

  -- In a table within its bounds, with a positive window and capacity: once an observation is let
  -- through, a check of it before its window ends finds a duplicate, whatever is checked in between
  -- at readings of the clock before that end, as long as the capacity forces no eviction in
  -- between.
  pub no_resend :
      (s : Dedupe K) (now later : Ticks) (fp : K) (between : List (Ticks × K))
      → IsBounded c s
      → 0 < c.capacity
      → 0 < c.window
      → (is_duplicate c now fp s).0 ≡ false
      → All (λ k. k.0 < now + c.window) between
      → (run_checks between (is_duplicate c now fp s).1).evictions
        ≡ (is_duplicate c now fp s).1.evictions
      → later < now + c.window
      → (is_duplicate c later fp (run_checks between (is_duplicate c now fp s).1)).0 ≡ true
  no_resend s now later fp between v room on fresh early same lt =
      let sent = (is_duplicate c now fp s).1 in
      let held =
        run_keeps between fp (now + c.window) sent (admitted_until now fp s room on fresh) early
          same in
      (is_duplicate_iff c later fp (run_checks between sent)
          (run_checks-IsBounded between sent (is_duplicate-IsBounded c now fp s v))).1
        (on, (now + c.window, held, lt))
