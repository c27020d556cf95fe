-- ===== src/Neighbor/Examples.antt =====
-- neighbor.py: a small tracker, and the theorems at it.
use codexnet.Prelude.{ℕ, ◌≡◌, refl, [], ◌∷◌, none, some, arith, ◌+◌, ◌<◌, ◌↔◌, All}
use codexnet.Prelude.Keys.{list_eq, list_beq}
use codexnet.Prelude.Text.{Text, codes}
use codexnet.OrderedDict.{lookup}
use codexnet.Neighbor.Evidence.{NeighborEvidence}
use codexnet.Neighbor.Tracker.{
  NeighborTracker, key_of, key_beq, key_eq, TrackedNeighbor, observed, observe, fresh_entry,
}
use codexnet.Neighbor.Tracker.Kept.{
  IsValid, observe-IsValid, Tracks, observe-Tracks, observe_silent_iff,
}
use codexnet.Neighbor.Tracker.Conflicts.{Agrees, observe_discloses}

abbrev evidence : ℕ → Text → NeighborEvidence
evidence at mac = record {
  address = codes "10.0.0.9";
  mac_address = some mac;
  interface = codes "eth0";
  state = codes "reachable";
  source = codes "passive.arp";
  observed_at = at;
  operation = none;
}

abbrev first : NeighborEvidence
first = evidence 5 (codes "02:00:00:00:00:01")

abbrev other : NeighborEvidence
other = evidence 6 (codes "02:00:00:00:00:02")

abbrev entry : TrackedNeighbor
entry = record {
  evidence = first;
  first_seen = 5;
  last_seen = 5;
  last_emitted = 5;
  expires_at = 15;
}

abbrev tracker : NeighborTracker
tracker = record {
  max_age = 10;
  dedupe_window = 3;
  max_entries = 1;
  entries = (key_of first, entry) ∷ [];
}

-- What the runs below compute with.
program : Unit {0}
unfolding lookup list_beq key_beq
program = tt

tracker-IsValid : IsValid tracker
unfolding program
tracker-IsValid = record { positive = omega arith; bounded = omega arith; distinct = (refl, tt) }

observe-IsValid_example : IsValid (observe tracker other).0
observe-IsValid_example = observe-IsValid tracker other tracker-IsValid

observe-Tracks_example : Tracks tracker (observe tracker other).0 other
observe-Tracks_example = observe-Tracks tracker other tracker-IsValid

observe_silent_iff_example : ((observe tracker first).1 ≡ []) ↔ (
    (old : TrackedNeighbor) × (lookup (key_of first) tracker.entries ≡ some old)
    × (first.observed_at < old.last_emitted + tracker.dedupe_window))
observe_silent_iff_example = observe_silent_iff tracker first

untracked : lookup (key_of other) tracker.entries ≡ none
unfolding program
untracked = refl

observe_discloses_example :
    ((observe tracker other).1 ≡ observed (fresh_entry tracker other) ∷ [])
    ↔ All (λ kt. Agrees other kt.1) tracker.entries
observe_discloses_example =
    observe_discloses tracker other (codes "02:00:00:00:00:02") untracked refl
