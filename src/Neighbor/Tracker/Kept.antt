-- ===== src/Neighbor/Tracker/Kept.antt =====
-- neighbor.py, `NeighborTracker`: the bound on the entries, and what an observation leaves.
use codexnet.Prelude.{
  refl, ◌∙◌, ◌+◌, ◌↔◌, ℕ, ◌≤◌, ◌<◌, ◌≡◌, sym, ◌⊎◌, inl, inr, true, false, none, some, [], arith,
  length, Bool-cases, Option-cases,
}
use codexnet.Prelude.Keys.{eq_refl}
use mathlib.Core.Path.{subst}
use codexnet.OrderedDict.Lookup.{lookup-set_last}
use codexnet.OrderedDict.Size.{
  lookup-trim-set_last, length-set_last-le, length-set_last_of_some, length-trim-le,
}
use codexnet.Neighbor.Tracker.{
  refreshed, NeighborKey, key_eq, key_of, TrackedNeighbor, NeighborTracker, new_tracker,
  fresh_entry, is_suppressed, observe_again, observe_new, observe,
}
use codexnet.OrderedDict.{lookup, set_last, Distinct}
use codexnet.OrderedDict.Keys.{set_last-Distinct, trim-Distinct}
use codexnet.Neighbor.Evidence.{NeighborEvidence}

pub record IsValid (s : NeighborTracker) : Type 0 where
  pub positive : 0 < s.max_entries
  pub bounded : length s.entries ≤ s.max_entries
  pub distinct : Distinct s.entries

pub new_tracker-IsValid :
    (age window n : ℕ) (s : NeighborTracker) → new_tracker age window n ≡ some s → IsValid s
unfolding new_tracker
new_tracker-IsValid age window n s h =
    let empty : s.entries ≡ [] = ground arith in
    record {
      positive = ground arith;
      bounded = ground arith;
      distinct = subst Distinct (sym empty) tt;
    }

pub observe-again :
    (s : NeighborTracker) (e : NeighborEvidence) (old : TrackedNeighbor)
    → lookup (key_of e) s.entries ≡ some old
    → observe s e ≡ observe_again s e old
unfolding observe
observe-again s e old h = rw (h, observe)

pub observe-new :
    (s : NeighborTracker) (e : NeighborEvidence)
    → lookup (key_of e) s.entries ≡ none
    → observe s e ≡ observe_new s e
unfolding observe
observe-new s e h = rw (h, observe)

-- A write under a key that is there keeps the number of entries.
rewrite-IsValid :
    (s : NeighborTracker) (k : NeighborKey) (old new : TrackedNeighbor)
    → lookup k s.entries ≡ some old
    → IsValid s
    → IsValid (record s { entries = set_last k new s.entries })
rewrite-IsValid s k old new hit v = record {
  positive = v.positive;
  bounded = omega (arith, length-set_last_of_some k old new s.entries v.distinct hit, v.bounded);
  distinct = set_last-Distinct k new s.entries v.distinct;
}

-- Whatever is observed, a tracker with a positive capacity keeps at most that many entries, one for
-- each pair of addresses and interface.
pub observe-IsValid :
    (s : NeighborTracker) (e : NeighborEvidence) → IsValid s → IsValid (observe s e).0
observe-IsValid s e v = elim (Option-cases (lookup (key_of e) s.entries)) [
  | inr (old, hit) ↦
      rw (observe-again s e old hit) (again old hit (Bool-cases (is_suppressed s e old)))
  | inl miss ↦
      let written = set_last (key_of e) (fresh_entry s e) s.entries in
      rw (observe-new s e miss) (
        unfold observe_new in
        record {
          positive = v.positive;
          bounded =
              length-trim-le s.max_entries written (
                omega
                  (arith, length-set_last-le (key_of e) (fresh_entry s e) s.entries, v.bounded));
          distinct =
              trim-Distinct s.max_entries written
                (set_last-Distinct (key_of e) (fresh_entry s e) s.entries v.distinct);
        })
]
  where
    again :
        (old : TrackedNeighbor)
        → lookup (key_of e) s.entries ≡ some old
        → (is_suppressed s e old ≡ true) ⊎ (is_suppressed s e old ≡ false)
        → IsValid (observe_again s e old).0
    again old hit (inl held) =
        unfold observe_again in rw held (rewrite-IsValid s (key_of e) old _ hit v)
    again old hit (inr due) =
        unfold observe_again in rw due (rewrite-IsValid s (key_of e) old _ hit v)

-- The entry that an observation leaves under its key: the new evidence, seen now, valid for the
-- tracker's age from now.
pub record Tracks (s t : NeighborTracker) (e : NeighborEvidence) : Type 0 where
  pub entry : TrackedNeighbor
  pub found : lookup (key_of e) t.entries ≡ some entry
  pub evidence : entry.evidence ≡ e
  pub seen : entry.last_seen ≡ e.observed_at
  pub valid_until : entry.expires_at ≡ e.observed_at + s.max_age

lookup-set_last_self :
    (k : NeighborKey) (t : TrackedNeighbor) (s : NeighborTracker)
    → lookup k (set_last k t s.entries) ≡ some t
lookup-set_last_self k t s = lookup-set_last k k t s.entries ∙ rw (eq_refl k)

-- Behind every observation of a valid tracker its evidence is tracked as seen now, even when the
-- capacity forced an older entry out.
pub observe-Tracks :
    (s : NeighborTracker) (e : NeighborEvidence) → IsValid s → Tracks s (observe s e).0 e
observe-Tracks s e v = elim (Option-cases (lookup (key_of e) s.entries)) [
  | inr (old, hit) ↦ rw (observe-again s e old hit) (again old (Bool-cases (is_suppressed s e old)))
  | inl miss ↦ rw (observe-new s e miss) (record {
    entry = fresh_entry s e;
    found =
        unfold observe_new in
        lookup-trim-set_last s.max_entries (key_of e) (fresh_entry s e) s.entries v.positive;
    evidence = refl;
    seen = refl;
    valid_until = refl;
  })
]
  where
    again :
        (old : TrackedNeighbor)
        → (is_suppressed s e old ≡ true) ⊎ (is_suppressed s e old ≡ false)
        → Tracks s (observe_again s e old).0 e
    again old (inl held) = record {
      entry = refreshed s e old;
      found =
          unfold observe_again in rw held (lookup-set_last_self (key_of e) (refreshed s e old) s);
      evidence = refl;
      seen = refl;
      valid_until = refl;
    }
    again old (inr due) = record {
      entry = record (refreshed s e old) { last_emitted = e.observed_at };
      found =
          unfold observe_again in
          rw due (
            lookup-set_last_self (key_of e)
              (record (refreshed s e old) { last_emitted = e.observed_at }) s);
      evidence = refl;
      seen = refl;
      valid_until = refl;
    }

-- An observation is silent exactly if its evidence was tracked and last shown within the window.
pub observe_silent_iff :
    (s : NeighborTracker) (e : NeighborEvidence)
    → ((observe s e).1 ≡ []) ↔ (
        (old : TrackedNeighbor) × (lookup (key_of e) s.entries ≡ some old)
        × (e.observed_at < old.last_emitted + s.dedupe_window))
observe_silent_iff s e = elim (Option-cases (lookup (key_of e) s.entries)) [
  | inl miss ↦ (
    λ silent. absurd (unfold observe_new in ground (arith, observe-new s e miss)),
    λ (old, hit, lt). cc,
  )
  | inr (old, hit) ↦ (
    λ silent. (old, hit, unfold observe_again in ground (arith, observe-again s e old hit)),
    λ (old', hit', lt). unfold observe_again in ground (arith, observe-again s e old hit),
  )
]
