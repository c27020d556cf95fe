-- ===== src/Capture/Examples.antt =====
-- passive_service.py: an ARP frame without its padding.
use codexnet.Prelude.{take, drop, ◌⊎◌, ℕ, ◌≤◌, ◌≡◌, refl, slice, some, List, [], ◌∷◌, length}
use codexnet.Prelude.Text.{codes, be_value}
use codexnet.Capture.{decode_payload, decode_ethernet}
use codexnet.Capture.Inside.{IsUntagged, IsTagged, IsPayload, decode_ethernet-IsPayload}

abbrev packet : List ℕ
packet = 1 ∷ 2 ∷ 3 ∷ 4 ∷ 5 ∷ 6 ∷ 1 ∷ 2 ∷ 3 ∷ 4 ∷ 5 ∷ 7 ∷ 8 ∷ 6 ∷ 42 ∷ []

decodes : decode_ethernet packet ≡ some (codes "arp", 42 ∷ [])
unfolding decode_ethernet decode_payload slice be_value
decodes = refl

decode_ethernet-IsPayload_example :
    (length packet ≤ 9216)
    × ((IsUntagged packet
          × IsPayload
              (take 6 packet)
              (be_value (slice 12 14 packet))
              (drop 14 packet)
              (codes "arp")
              (42 ∷ []))
        ⊎ (IsTagged packet
            × IsPayload
                (take 6 packet)
                (be_value (slice 16 18 packet))
                (drop 18 packet)
                (codes "arp")
                (42 ∷ [])))
decode_ethernet-IsPayload_example = decode_ethernet-IsPayload packet (codes "arp") (42 ∷ []) decodes
