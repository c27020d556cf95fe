-- ===== src/Neighbor/Tracker/Conflicts.antt =====
-- neighbor.py, `observe`: which conflicts new evidence discloses.
use codexnet.Prelude.{
  sym, ap, ◌∙◌, refl, inr, inl, some, Option-cases, ◌++◌, ◌⊎◌, none, All, arith, ◌↔◌, ◌∷◌, [], ◌≡◌,
  ◌≢◌, List, Option,
}
use mathlib.Core.Path.{subst}
use codexnet.Prelude.Keys.{list_eq, nat_eq, option_eq, option_beq_iff, list_beq_iff}
use codexnet.Neighbor.Tracker.{
  option_beq_iff, some, list_beq_iff, lookup, none, arith, ◌∷◌, [], List, OrderedDict, Option, Text,
  NeighborKey, key_eq, key_of, TrackedNeighbor, NeighborTracker, NeighborEvent, observed,
  fresh_entry, insert_text, other_mac, other_address, collect, conflicts, reuse_event,
  movement_event, observe, observe_new,
}
use codexnet.OrderedDict.{lookup, OrderedDict}
use codexnet.Prelude.Text.{Text}
use codexnet.Neighbor.Evidence.{NeighborEvidence}
use codexnet.Neighbor.Tracker.Kept.{observe-new}

insert_text-ne-nil : (s : Text) (ts : List Text) → insert_text s ts ≢ []
unfolding insert_text
insert_text-ne-nil s [] h = cc
insert_text-ne-nil s (t ∷ ts) h = ground arith

collect-eq-nil :
    (f : TrackedNeighbor → Option Text) (d : OrderedDict NeighborKey TrackedNeighbor)
    → (collect f d ≡ []) ↔ All (λ e. f e.1 ≡ none) d
unfolding collect
collect-eq-nil f [] = ((λ _. tt), (λ _. refl))
collect-eq-nil f ((k, item) ∷ d) = elim (Option-cases (f item)) [
  | inl same ↦ rw same ((λ h. (refl, (collect-eq-nil f d).0 h)), (λ h. (collect-eq-nil f d).1 h.1))
  | inr (s, other) ↦ rw other ((λ h. absurd (insert_text-ne-nil s (collect f d) h)), (λ h. cc))
]

-- Evidence agrees with a tracked entry: at its address and interface the entry has no hardware
-- address or the same one, and with its hardware address on its interface the same address.
pub record Agrees (e : NeighborEvidence) (t : TrackedNeighbor) : Type 0 where
  pub one_mac :
      t.evidence.address ≡ e.address
      → t.evidence.interface ≡ e.interface
      → (t.evidence.mac_address ≡ none) ⊎ (t.evidence.mac_address ≡ e.mac_address)
  pub one_address :
      t.evidence.mac_address ≡ e.mac_address
      → t.evidence.interface ≡ e.interface
      → t.evidence.address ≡ e.address

module _ (e : NeighborEvidence) (t : TrackedNeighbor) where
  other-Agrees : other_mac e t ≡ none → other_address e t ≡ none → Agrees e t
  unfolding other_mac other_address
  other-Agrees no_mac no_address =
      let addresses = list_beq_iff t.evidence.address e.address in
      let interfaces = list_beq_iff t.evidence.interface e.interface in
      let macs = option_beq_iff t.evidence.mac_address e.mac_address in
      record {
        one_mac = λ a i. ground (arith, addresses, interfaces, macs);
        one_address = λ m i. ground (arith, addresses, interfaces, macs);
      }

  Agrees-other : Agrees e t → (other_mac e t ≡ none) × (other_address e t ≡ none)
  unfolding other_mac other_address
  Agrees-other v =
      let addresses = list_beq_iff t.evidence.address e.address in
      let interfaces = list_beq_iff t.evidence.interface e.interface in
      let macs = option_beq_iff t.evidence.mac_address e.mac_address in
      (
        ground (arith, addresses, interfaces, macs, v.one_mac),
        ground (arith, addresses, interfaces, macs, v.one_address),
      )

events-eq-nil :
    (e : NeighborEvidence) (macs addresses : List Text)
    → (reuse_event e macs ++ movement_event e addresses ≡ []) ↔ ((macs ≡ []) × (addresses ≡ []))
events-eq-nil e [] [] = ground arith
events-eq-nil e [] (a ∷ l) = ground arith
events-eq-nil e (m ∷ l) addresses = ground arith

All-Agrees :
    (e : NeighborEvidence) (d : OrderedDict NeighborKey TrackedNeighbor)
    → (All (λ kt. other_mac e kt.1 ≡ none) d × All (λ kt. other_address e kt.1 ≡ none) d)
      ↔ All (λ kt. Agrees e kt.1) d
All-Agrees e [] = ((λ _. tt), (λ _. (tt, tt)))
All-Agrees e ((k, t) ∷ d) = (
  λ (ms, ads). (other-Agrees e t ms.0 ads.0, (All-Agrees e d).0 (ms.1, ads.1)),
  λ (v, vs).
      let (m, a) = Agrees-other e t v in
      let (ms, ads) = (All-Agrees e d).1 vs in ((m, ms), (a, ads)),
)

conflicts_quiet :
    (e : NeighborEvidence) (m : Text) (d : OrderedDict NeighborKey TrackedNeighbor)
    → e.mac_address ≡ some m
    → (conflicts e e.mac_address d ≡ []) ↔ All (λ kt. Agrees e kt.1) d
unfolding conflicts
conflicts_quiet e m d mac =
    let macs = collect (other_mac e) d in
    let addresses = collect (other_address e) d in
    subst (λ o. (conflicts e o d ≡ []) ↔ All (λ kt. Agrees e kt.1) d) (sym mac)
      (
        (λ none_shown.
            let (no_mac, no_address) = (events-eq-nil e macs addresses).0 none_shown in
            (All-Agrees e d).0 (
              (collect-eq-nil (other_mac e) d).0 no_mac,
              (collect-eq-nil (other_address e) d).0 no_address,
            )),
        (λ agree.
            let (ms, ads) = (All-Agrees e d).1 agree in
            (events-eq-nil e macs addresses).1
              ((collect-eq-nil (other_mac e) d).1 ms, (collect-eq-nil (other_address e) d).1 ads)),
      )

observe-shows :
    (s : NeighborTracker) (e : NeighborEvidence)
    → lookup (key_of e) s.entries ≡ none
    → (observe s e).1 ≡ observed (fresh_entry s e) ∷ conflicts e e.mac_address s.entries
unfolding observe_new
observe-shows s e miss =
    ap (λ (r : NeighborTracker × List NeighborEvent). r.1) (observe-new s e miss)

-- Evidence with a hardware address, whose key was not tracked, yields its observation alone exactly
-- if it agrees with every tracked entry.
pub observe_discloses :
    (s : NeighborTracker) (e : NeighborEvidence) (m : Text)
    → lookup (key_of e) s.entries ≡ none
    → e.mac_address ≡ some m
    → ((observe s e).1 ≡ observed (fresh_entry s e) ∷ []) ↔ All (λ kt. Agrees e kt.1) s.entries
observe_discloses s e m miss mac =
    let shown = observe-shows s e miss in
    let quiet = conflicts_quiet e m s.entries mac in
    (
      λ only. quiet.0 (cc (shown, only)),
      λ agree. shown ∙ ap (λ l. observed (fresh_entry s e) ∷ l) (quiet.1 agree),
    )
