-- ===== src/LinkLayer/Cdp/Accepted.antt =====
-- link_layer.py, `parse_cdp`: what an accepted frame shows.
use mathlib.Core.Path.{subst}
use codexnet.Prelude.{
  ℕ, ◌+◌, ◌*◌, ◌≤◌, ◌≡◌, ◌≢◌, ◌⊎◌, ap, sym, refl, ◌∙◌, none, some, List, [], ◌∷◌, length, byte_at,
  drop, arith, inl, inr, Option-cases,
}
use codexnet.Prelude.Keys.{list_beq_iff, nat_eq}
use codexnet.Prelude.Result.{Result, ok, Result-cases}
use codexnet.LinkLayer.Latest.{IsRead, Reads, ReadsOne, Reads-cons, Reads-shown}
use codexnet.LinkLayer.Values.{link_text}
use codexnet.LinkLayer.Tlvs.{LinkError, Tlv, Yielded, cdp_tlvs}
use codexnet.Prelude.Text.{Text, codes}
use codexnet.Passive.Types.{Unicode, PassiveFrame, PassiveObservation, second}
use codexnet.LinkLayer.Cdp.{
  CdpFields, cdp_start, cdp_tlv, cdp_fold, cdp_run, cdp_observation, parse_cdp,
}

-- What no element overwrites.
record Same (f g : CdpFields) : Type 0 where
  version : g.protocol_version ≡ f.protocol_version
  ttl : g.ttl_seconds ≡ f.ttl_seconds
  interface : g.local_interface ≡ f.local_interface

module _ (unicode : Unicode) (ipv6_text : List ℕ → Text) where
  cdp_tlv-Same : (t : Tlv) (f g : CdpFields) → cdp_tlv unicode ipv6_text t f ≡ ok g → Same f g
  unfolding cdp_tlv
  cdp_tlv-Same t f g h = record {
    version = ground arith;
    ttl = ground arith;
    interface = ground arith;
  }

  cdp_fold-Same :
      (ts : List Tlv) (f g : CdpFields) → cdp_fold unicode ipv6_text ts f ≡ ok g → Same f g
  unfolding cdp_fold
  cdp_fold-Same [] f g h =
      let same : f ≡ g = ground (arith, h) in
      subst (λ q. Same f q) same (record { version = refl; ttl = refl; interface = refl })
  cdp_fold-Same (t ∷ ts) f g h = elim (Result-cases (cdp_tlv unicode ipv6_text t f)) [
    | inr (e, failed) ↦ absurd (ground arith)
    | inl (f', done) ↦
        let first = cdp_tlv-Same t f f' done in
        let rest = cdp_fold-Same ts f' g (ground arith) in
        record {
          version = rest.version ∙ first.version;
          ttl = rest.ttl ∙ first.ttl;
          interface = rest.interface ∙ first.interface;
        }
  ]

  -- The reader of the two identities.
  abbrev pub read_identity : List ℕ → Result LinkError Text
  read_identity value = link_text unicode ipv6_text value 255

  -- What the elements make of the two identities.
  record Identified (ts : List Tlv) (f g : CdpFields) : Type 0 where
    chassis : Reads read_identity 0x0001 ts f.chassis_id g.chassis_id
    port : Reads read_identity 0x0003 ts f.port_id g.port_id

  cdp_tlv-ReadsOne :
      (t : Tlv) (f g : CdpFields)
      → cdp_tlv unicode ipv6_text t f ≡ ok g
      → ReadsOne read_identity 0x0001 t f.chassis_id g.chassis_id
        × ReadsOne read_identity 0x0003 t f.port_id g.port_id
  unfolding cdp_tlv
  cdp_tlv-ReadsOne t f g h =
      let text = link_text unicode ipv6_text t.value 255 in
      (
        (
          λ is. elim (Result-cases text) [
            | inr (e, bad) ↦ absurd (ground arith)
            | inl (a, good) ↦ (a, good, ground arith)
          ],
          λ other. ground arith,
        ),
        (
          λ is. elim (Result-cases text) [
            | inr (e, bad) ↦ absurd (ground arith)
            | inl (a, good) ↦ (a, good, ground arith)
          ],
          λ other. ground arith,
        ),
      )

  cdp_fold-Identified :
      (ts : List Tlv) (f g : CdpFields) → cdp_fold unicode ipv6_text ts f ≡ ok g → Identified ts f g
  unfolding cdp_fold
  cdp_fold-Identified [] f g h =
      let same : f ≡ g = ground (arith, h) in
      record {
        chassis = inl (refl, sym (ap (λ (q : CdpFields). q.chassis_id) same));
        port = inl (refl, sym (ap (λ (q : CdpFields). q.port_id) same));
      }
  cdp_fold-Identified (t ∷ ts) f g h = elim (Result-cases (cdp_tlv unicode ipv6_text t f)) [
    | inr (e, failed) ↦ absurd (ground arith)
    | inl (f', done) ↦
        let (chassis', port') = cdp_tlv-ReadsOne t f f' done in
        let rest = cdp_fold-Identified ts f' g (ground arith) in
        record {
          chassis =
              Reads-cons read_identity 0x0001 t ts f.chassis_id f'.chassis_id g.chassis_id chassis'
                rest.chassis;
          port =
              Reads-cons read_identity 0x0003 t ts f.port_id f'.port_id g.port_id port' rest.port;
        }
  ]

  cdp_run_fold :
      (y : Yielded) (f g : CdpFields)
      → cdp_run unicode ipv6_text y f ≡ ok g
      → cdp_fold unicode ipv6_text y.tlvs f ≡ ok g
  unfolding cdp_run
  cdp_run_fold y f g h = elim (Result-cases (cdp_fold unicode ipv6_text y.tlvs f)) [
    | inr (e, failed) ↦ absurd (ground arith)
    | inl (f', done) ↦ elim (Option-cases y.outcome) [
      | inr (e, raised) ↦ absurd (ground arith)
      | inl returned ↦ ground arith
    ]
  ]

  -- The elements of the frame, behind its header of four bytes.
  abbrev pub elements_of : PassiveFrame → List Tlv
  elements_of frame = (cdp_tlvs (drop 4 frame.payload)).tlvs

  -- An observation of a neighbour: both identities, and the lifetime of the header, behind which it
  -- expires.
  pub record IsCdpNeighbor (frame : PassiveFrame) (o : PassiveObservation CdpFields) : Type 0 where
    pub protocol : frame.protocol ≡ codes "cdp"
    pub size : (4 ≤ length frame.payload) × (length frame.payload ≤ 8192)
    pub version : (byte_at frame.payload 0 ≡ 1) ⊎ (byte_at frame.payload 0 ≡ 2)
    pub shown_version : o.fields.protocol_version ≡ byte_at frame.payload 0
    pub lifetime : o.fields.ttl_seconds ≡ byte_at frame.payload 1
    pub device : Text
    pub shown_device : o.fields.chassis_id ≡ some device
    pub device_read : IsRead read_identity 0x0001 (elements_of frame) device
    pub port : Text
    pub shown_port : o.fields.port_id ≡ some port
    pub port_read : IsRead read_identity 0x0003 (elements_of frame) port
    pub expires : o.expires_at ≡ some (frame.observed_at + byte_at frame.payload 1 * second)
    pub interface : o.fields.local_interface ≡ frame.interface

  -- An accepted CDP frame is of that protocol, within its size bounds and of a known version. Its
  -- observation shows the version and the lifetime of the frame's header, as the device and as the
  -- port the text of the last element of type 1 and of type 3, and the frame's interface, and it
  -- expires behind the lifetime.
  pub parse_cdp-IsCdpNeighbor :
      (frame : PassiveFrame) (o : PassiveObservation CdpFields)
      → parse_cdp unicode ipv6_text frame ≡ ok o
      → IsCdpNeighbor frame o
  unfolding parse_cdp cdp_observation
  parse_cdp-IsCdpNeighbor frame o h =
      let start = cdp_start (byte_at frame.payload 0) (byte_at frame.payload 1) frame.interface in
      let tlvs = cdp_tlvs (drop 4 frame.payload) in
      elim (Result-cases (cdp_run unicode ipv6_text tlvs start)) [
        | inr (e, failed) ↦ absurd (ground arith)
        | inl (f, run) ↦
            let folded = cdp_run_fold tlvs start f run in
            let same = cdp_fold-Same tlvs.tlvs start f folded in
            let named = cdp_fold-Identified tlvs.tlvs start f folded in
            let made : o ≡ cdp_observation unicode ipv6_text frame f = ground arith in
            let protocol : frame.protocol ≡ codes "cdp" =
              ground (arith, list_beq_iff frame.protocol (codes "cdp")) in
            let size : (4 ≤ length frame.payload) × (length frame.payload ≤ 8192) = ground arith in
            let version : (byte_at frame.payload 0 ≡ 1) ⊎ (byte_at frame.payload 0 ≡ 2) =
              ground arith in
            let chassis : f.chassis_id ≢ none = λ gone. ground arith in
            let port' : f.port_id ≢ none = λ gone. ground arith in
            let (device, at_device, device_read) =
              Reads-shown read_identity 0x0001 tlvs.tlvs f.chassis_id chassis named.chassis in
            let (port, at_port, port_read) =
              Reads-shown read_identity 0x0003 tlvs.tlvs f.port_id port' named.port in
            subst (λ q. IsCdpNeighbor frame q) (sym made)
              (record {
                protocol = protocol;
                size = size;
                version = version;
                shown_version = same.version;
                lifetime = same.ttl;
                device = device;
                shown_device = at_device;
                device_read = device_read;
                port = port;
                shown_port = at_port;
                port_read = port_read;
                expires = ap (λ n. some (frame.observed_at + n * second)) same.ttl;
                interface = same.interface;
              })
      ]
