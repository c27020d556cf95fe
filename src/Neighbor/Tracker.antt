-- ===== src/Neighbor/Tracker.antt =====
-- neighbor.py: `NeighborTracker` and `ArpParser`.
pub mod Kept
pub mod Conflicts
pub mod Aging
use codexnet.Prelude.{
  ℕ, ◌+◌, ◌≡◌, ◌↔◌, Bool, true, false, not, ◌||◌, ◌&&◌, Option, none, some, List, [], ◌∷◌, ◌++◌,
  length, ltb, leb, nat_beq, if◌then◌else◌, arith,
}
use codexnet.Prelude.Keys.{
  Eq, nat_eq, list_eq, option_eq, list_beq, list_beq_iff, option_beq, option_beq_iff, ◌==◌,
}
use codexnet.Prelude.Result.{Result, ok, err, ◌>>=◌}
use codexnet.Prelude.Text.{Text, codes}
use codexnet.OrderedDict.{OrderedDict, lookup, set_last, trim}
use codexnet.Passive.Types.{Instant, PassiveFrame, Unicode, second}
use codexnet.Passive.Observation.{Stamp, naive, aware}
use codexnet.Neighbor.Evidence.{
  naive_timestamp, NeighborEvidence, NeighborError, parse_arp_evidence,
}

-- The key of an entry: (address, mac_address, interface).
pub record NeighborKey : Type 0 where
  pub address : Text
  pub mac_address : Option Text
  pub interface : Text

unfoldable pub key_beq : NeighborKey → NeighborKey → Bool
key_beq a b =
    list_beq a.address b.address
    && option_beq a.mac_address b.mac_address
    && list_beq a.interface b.interface

pub key_beq_iff : (a b : NeighborKey) → (key_beq a b ≡ true) ↔ (a ≡ b)
unfolding key_beq
key_beq_iff a b = ground (
  arith,
  list_beq_iff a.address b.address,
  option_beq_iff a.mac_address b.mac_address,
  list_beq_iff a.interface b.interface,
)

instance abbrev pub key_eq : Eq NeighborKey
key_eq = record { beq = key_beq; beq_iff = key_beq_iff }

abbrev pub key_of : NeighborEvidence → NeighborKey
key_of e = record { address = e.address; mac_address = e.mac_address; interface = e.interface }

-- _TrackedNeighbor
pub record TrackedNeighbor : Type 0 where
  pub evidence : NeighborEvidence
  pub first_seen : Instant
  pub last_seen : Instant
  pub last_emitted : Instant
  pub expires_at : Instant

-- Spans of time are in microseconds, as the instants are.
pub record NeighborTracker : Type 0 where
  pub max_age : ℕ
  pub dedupe_window : ℕ
  pub max_entries : ℕ
  pub entries : OrderedDict NeighborKey TrackedNeighbor

-- The observations of the module, one constructor for each kind: `observed` is a
-- `neighbor_observation`, which shows the tracked entry.
pub data NeighborEvent : Type 0 where
  observed : TrackedNeighbor → NeighborEvent
  ip_reuse : NeighborEvidence → List Text → NeighborEvent
  mac_movement : NeighborEvidence → List Text → NeighborEvent
  expired : TrackedNeighbor → Instant → NeighborEvent

-- NeighborTracker(...); `none` stands for the ValueError
unfoldable pub new_tracker : ℕ → ℕ → ℕ → Option NeighborTracker
new_tracker max_age dedupe_window max_entries =
    if nat_beq max_age 0 || ltb max_entries 1
    then none
    else some (record {
      max_age = max_age;
      dedupe_window = dedupe_window;
      max_entries = max_entries;
      entries = [];
    })

-- Python's order of texts
unfoldable pub text_ltb : Text → Text → Bool
text_ltb [] [] = false
text_ltb [] (d ∷ ds) = true
text_ltb (c ∷ cs) [] = false
text_ltb (c ∷ cs) (d ∷ ds) = ltb c d || (nat_beq c d && text_ltb cs ds)

unfoldable pub insert_text : Text → List Text → List Text
insert_text s [] = s ∷ []
insert_text s (t ∷ ts) =
    let rest = insert_text s ts in
    if s == t then t ∷ ts else if text_ltb s t then s ∷ t ∷ ts else t ∷ rest

-- A tracked address with another hardware address on the same interface.
unfoldable pub other_mac : NeighborEvidence → TrackedNeighbor → Option Text
other_mac e item =
    if list_beq item.evidence.address e.address
      && list_beq item.evidence.interface e.interface
      && not (option_beq item.evidence.mac_address e.mac_address)
    then item.evidence.mac_address
    else none

-- The same hardware address at another address of the same interface.
unfoldable pub other_address : NeighborEvidence → TrackedNeighbor → Option Text
other_address e item =
    if option_beq item.evidence.mac_address e.mac_address
      && list_beq item.evidence.interface e.interface
      && not (list_beq item.evidence.address e.address)
    then some item.evidence.address
    else none

abbrev insert_some : Option Text → List Text → List Text
insert_some none ts = ts
insert_some (some s) ts = insert_text s ts

-- sorted({... for item in self._entries.values() if ...})
unfoldable pub collect :
    (TrackedNeighbor → Option Text) → OrderedDict NeighborKey TrackedNeighbor → List Text
collect f [] = []
collect f ((k, item) ∷ d) = insert_some (f item) (collect f d)

abbrev reuse_event : NeighborEvidence → List Text → List NeighborEvent
reuse_event e [] = []
reuse_event e (m ∷ ms) = ip_reuse e (m ∷ ms) ∷ []

abbrev movement_event : NeighborEvidence → List Text → List NeighborEvent
movement_event e [] = []
movement_event e (a ∷ addresses) = mac_movement e (a ∷ addresses) ∷ []

-- The conflicts of new evidence with the entries before it.
unfoldable pub conflicts :
    NeighborEvidence → Option Text → OrderedDict NeighborKey TrackedNeighbor → List NeighborEvent
conflicts e none entries = []
conflicts e (some m) entries =
    reuse_event e (collect (other_mac e) entries)
    ++ movement_event e (collect (other_address e) entries)

-- The entry of evidence that is seen again, before and after its emission.
abbrev pub refreshed : NeighborTracker → NeighborEvidence → TrackedNeighbor → TrackedNeighbor
refreshed s e old = record old {
  evidence = e;
  last_seen = e.observed_at;
  expires_at = e.observed_at + s.max_age;
}

abbrev pub fresh_entry : NeighborTracker → NeighborEvidence → TrackedNeighbor
fresh_entry s e = record {
  evidence = e;
  first_seen = e.observed_at;
  last_seen = e.observed_at;
  last_emitted = e.observed_at;
  expires_at = e.observed_at + s.max_age;
}

-- now - existing.last_emitted < self._dedupe_window, where the difference may be negative
abbrev pub is_suppressed : NeighborTracker → NeighborEvidence → TrackedNeighbor → Bool
is_suppressed s e old = ltb e.observed_at (old.last_emitted + s.dedupe_window)

unfoldable pub observe_again :
    NeighborTracker → NeighborEvidence → TrackedNeighbor → NeighborTracker × List NeighborEvent
observe_again s e old =
    let seen = refreshed s e old in
    let emitted = record seen { last_emitted = e.observed_at } in
    if is_suppressed s e old
    then (record s { entries = set_last (key_of e) seen s.entries }, [])
    else (record s { entries = set_last (key_of e) emitted s.entries }, observed emitted ∷ [])

unfoldable pub observe_new :
    NeighborTracker → NeighborEvidence → NeighborTracker × List NeighborEvent
observe_new s e =
    let tracked = fresh_entry s e in
    (
      record s { entries = trim s.max_entries (set_last (key_of e) tracked s.entries) },
      observed tracked ∷ conflicts e e.mac_address s.entries,
    )

unfoldable pub observe : NeighborTracker → NeighborEvidence → NeighborTracker × List NeighborEvent
observe s e = elim (lookup (key_of e) s.entries) [
  | some old ↦ observe_again s e old
  | none ↦ observe_new s e
]

-- The loop of `expire` over the entries: what stays, and what is disclosed.
unfoldable pub expire_entries :
    Instant
    → OrderedDict NeighborKey TrackedNeighbor
    → OrderedDict NeighborKey TrackedNeighbor × List NeighborEvent
expire_entries now [] = ([], [])
expire_entries now ((k, item) ∷ d) =
    let (kept, events) = expire_entries now d in
    if ltb now item.expires_at
    then ((k, item) ∷ kept, events)
    else (kept, expired item now ∷ events)

unfoldable pub expire_at : NeighborTracker → Instant → NeighborTracker × List NeighborEvent
expire_at s now =
    let (kept, events) = expire_entries now s.entries in (record s { entries = kept }, events)

unfoldable pub expire :
    NeighborTracker → Stamp → Result NeighborError (NeighborTracker × List NeighborEvent)
expire s (naive t) = err naive_timestamp
expire s (aware now) = ok (expire_at s now)

-- ArpParser.__call__: a frame that does not parse leaves the tracker alone.
unfoldable pub arp_call :
    Unicode
    → NeighborTracker
    → PassiveFrame
    → NeighborTracker × Result NeighborError (List NeighborEvent)
arp_call unicode s frame = elim (parse_arp_evidence unicode frame) [
  | err e ↦ (s, err e)
  | ok evidence ↦ let (s', events) = observe s evidence in (s', ok events)
]
