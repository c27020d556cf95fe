-- ===== src/Neighbor/Tracker/Aging.antt =====
-- neighbor.py, `expire`: exactly the entries whose validity ended leave, one event for each.
use codexnet.Prelude.{◌+◌, ◌<◌, ◌≡◌, refl, ◌↔◌, none, some, [], ◌∷◌, arith, length}
use codexnet.OrderedDict.{OrderedDict, lookup, Distinct}
use codexnet.Passive.Types.{Instant}
use codexnet.Neighbor.Tracker.{
  NeighborKey, key_eq, key_beq_iff, TrackedNeighbor, NeighborTracker, expire_entries, expire_at,
}
use codexnet.Neighbor.Tracker.Kept.{IsValid}

absent-expire_entries :
    (now : Instant) (k : NeighborKey) (d : OrderedDict NeighborKey TrackedNeighbor)
    → lookup k d ≡ none
    → lookup k (expire_entries now d).0 ≡ none
unfolding expire_entries lookup
absent-expire_entries now k [] h = refl
absent-expire_entries now k ((j, t) ∷ d) h = ground (arith, absent-expire_entries now k d)

lookup-expire_entries :
    (now : Instant) (k : NeighborKey) (t : TrackedNeighbor)
    (d : OrderedDict NeighborKey TrackedNeighbor)
    → lookup k d ≡ some t
    → now < t.expires_at
    → lookup k (expire_entries now d).0 ≡ some t
unfolding expire_entries lookup
lookup-expire_entries now k t [] h lt = cc
lookup-expire_entries now k t ((j, u) ∷ d) h lt = ground (arith, lookup-expire_entries now k t d)

lookup_of_expire_entries :
    (now : Instant) (k : NeighborKey) (t : TrackedNeighbor)
    (d : OrderedDict NeighborKey TrackedNeighbor)
    → Distinct d
    → lookup k (expire_entries now d).0 ≡ some t
    → (lookup k d ≡ some t) × (now < t.expires_at)
unfolding expire_entries lookup
lookup_of_expire_entries now k t [] u h = cc
lookup_of_expire_entries now k t ((j, v) ∷ d) u h =
    ground
      (arith, lookup_of_expire_entries now k t d, absent-expire_entries now j d, key_beq_iff j k)

expire_entries-Distinct :
    (now : Instant) (d : OrderedDict NeighborKey TrackedNeighbor)
    → Distinct d
    → Distinct (expire_entries now d).0
unfolding expire_entries
expire_entries-Distinct now [] u = tt
expire_entries-Distinct now ((j, v) ∷ d) u =
    ground (arith, expire_entries-Distinct now d u.1, absent-expire_entries now j d)

expire_entries_balance :
    (now : Instant) (d : OrderedDict NeighborKey TrackedNeighbor)
    → length (expire_entries now d).0 + length (expire_entries now d).1 ≡ length d
unfolding expire_entries
expire_entries_balance now [] = omega arith
expire_entries_balance now ((j, v) ∷ d) = ground (arith, expire_entries_balance now d)

-- Aging a valid tracker keeps an entry exactly if its validity has not ended.
pub expire_exact :
    (s : NeighborTracker) (now : Instant) (k : NeighborKey) (t : TrackedNeighbor)
    → IsValid s
    → (lookup k (expire_at s now).0.entries ≡ some t)
      ↔ ((lookup k s.entries ≡ some t) × (now < t.expires_at))
unfolding expire_at
expire_exact s now k t v = (
  lookup_of_expire_entries now k t s.entries v.distinct,
  λ (hit, lt). lookup-expire_entries now k t s.entries hit lt,
)

-- Aging keeps the tracker valid, and discloses as many entries as it removes.
pub expire-IsValid :
    (s : NeighborTracker) (now : Instant)
    → IsValid s
    → IsValid (expire_at s now).0
      × (length (expire_at s now).0.entries + length (expire_at s now).1 ≡ length s.entries)
unfolding expire_at
expire-IsValid s now v = (
  record {
    positive = v.positive;
    bounded = omega (arith, expire_entries_balance now s.entries, v.bounded);
    distinct = expire_entries-Distinct now s.entries v.distinct;
  },
  expire_entries_balance now s.entries,
)
