-- ===== src/LinkLayer/Lldp/Accepted.antt =====
-- link_layer.py, `parse_lldp`: what an accepted frame shows.
use codexnet.Prelude.{
  nat_beq_iff, ◌⊎◌, ◌∙◌, ap, if◌then◌else◌, sym, ◌≢◌, ℕ, ◌+◌, ◌*◌, ◌≡◌, refl, true, Option, none,
  some, List, [], ◌∷◌, nat_beq, arith, inl, inr, Bool-cases, Option-cases, drop, length, byte_at,
}
use codexnet.LinkLayer.Lldp.Reading.{
  chassis-mac, port-mac, read_ttl-value, read_chassis, read_port, read_ttl, AllRead,
  lldp_run-AllRead,
}
use codexnet.Prelude.Text.{mac_text, be_value, Text, codes}
use codexnet.LinkLayer.Tlvs.{LinkError, Tlv, Yielded, lldp_tlvs}
use codexnet.Prelude.Result.{Result, ok, Result-cases}
use mathlib.Core.Path.{subst}
use codexnet.Prelude.Keys.{list_beq_iff, nat_eq}
use codexnet.Passive.Types.{Unicode, PassiveFrame, PassiveObservation, second}
use codexnet.LinkLayer.Latest.{latest, Reads-shown}
use codexnet.LinkLayer.Lldp.{
  LldpFields, LldpState, lldp_start, has, is_mandatory, lldp_value, lldp_tlv, lldp_fold, lldp_run,
  lldp_observation, parse_lldp,
}

-- The mandatory fields of the elements that were seen, and the interface of the frame.
record Seen (at : Option Text) (s : LldpState) : Type 0 where
  chassis : has 1 s.required ≡ true → s.fields.chassis_id ≢ none
  port : has 2 s.required ≡ true → s.fields.port_id ≢ none
  ttl : has 3 s.required ≡ true → s.fields.ttl_seconds ≢ none
  interface : s.fields.local_interface ≡ at

seen_cases :
    (k type : ℕ) (required now : List ℕ)
    → now ≡ (if is_mandatory type then type ∷ required else required)
    → has k now ≡ true
    → (type ≡ k) ⊎ ((type ≢ k) × (has k required ≡ true))
seen_cases k type required now made there =
    let h : has k (if is_mandatory type then type ∷ required else required) ≡ true =
      ap (λ l. has k l) (sym made) ∙ there in
    elim (Bool-cases (nat_beq type k)) [
      | inl same ↦ inl ((nat_beq_iff type k).0 same)
      | inr other ↦ inr (ground arith, ground arith)
    ]

module _ (unicode : Unicode) (ipv6_text : List ℕ → Text) where
  -- What handling a value keeps and writes of the mandatory fields.
  record Written (type : ℕ) (f g : LldpFields) : Type 0 where
    chassis : (type ≡ 1 → g.chassis_id ≢ none) × (type ≢ 1 → g.chassis_id ≡ f.chassis_id)
    port : (type ≡ 2 → g.port_id ≢ none) × (type ≢ 2 → g.port_id ≡ f.port_id)
    ttl : (type ≡ 3 → g.ttl_seconds ≢ none) × (type ≢ 3 → g.ttl_seconds ≡ f.ttl_seconds)
    interface : g.local_interface ≡ f.local_interface

  lldp_value-Written :
      (type : ℕ) (value : List ℕ) (f g : LldpFields)
      → lldp_value unicode ipv6_text type value f ≡ ok g
      → Written type f g
  unfolding lldp_value
  lldp_value-Written type value f g h = record {
    chassis = (λ is gone. ground arith, λ other. ground arith);
    port = (λ is gone. ground arith, λ other. ground arith);
    ttl = (λ is gone. ground arith, λ other. ground arith);
    interface = ground arith;
  }

  lldp_tlv-Seen :
      (i : Option Text) (t : Tlv) (s s' : LldpState)
      → lldp_tlv unicode ipv6_text t s ≡ ok s'
      → Seen i s
      → Seen i s'
  unfolding lldp_tlv
  lldp_tlv-Seen i t s s' h v = elim (Bool-cases (nat_beq t.type 0)) [
    | inl at_end ↦
        let made : s' ≡ record s { ended = true } = ground arith in
        subst (λ q. Seen i q) (sym made)
          (record { chassis = v.chassis; port = v.port; ttl = v.ttl; interface = v.interface })
    | inr no_end ↦ elim (Result-cases (lldp_value unicode ipv6_text t.type t.value s.fields)) [
      | inr (e, failed) ↦ absurd (ground arith)
      | inl (g, written) ↦
          let w = lldp_value-Written t.type t.value s.fields g written in
          let fields : s'.fields ≡ g = ground arith in
          let required : s'.required
              ≡ (if is_mandatory t.type then t.type ∷ s.required else s.required) =
            ground arith in
          record {
            chassis = λ there gone.
                let now = sym (ap (λ (x : LldpFields). x.chassis_id) fields) ∙ gone in
                elim (seen_cases 1 t.type s.required s'.required required there) [
                  | inl is ↦ w.chassis.0 is now
                  | inr (ne, was) ↦ v.chassis was (sym (w.chassis.1 ne) ∙ now)
                ];
            port = λ there gone.
                let now = sym (ap (λ (x : LldpFields). x.port_id) fields) ∙ gone in
                elim (seen_cases 2 t.type s.required s'.required required there) [
                  | inl is ↦ w.port.0 is now
                  | inr (ne, was) ↦ v.port was (sym (w.port.1 ne) ∙ now)
                ];
            ttl = λ there gone.
                let now = sym (ap (λ (x : LldpFields). x.ttl_seconds) fields) ∙ gone in
                elim (seen_cases 3 t.type s.required s'.required required there) [
                  | inl is ↦ w.ttl.0 is now
                  | inr (ne, was) ↦ v.ttl was (sym (w.ttl.1 ne) ∙ now)
                ];
            interface =
                ap (λ (f : LldpFields). f.local_interface) fields ∙ w.interface ∙ v.interface;
          }
    ]
  ]

  lldp_fold-Seen :
      (i : Option Text) (ts : List Tlv) (s t : LldpState)
      → lldp_fold unicode ipv6_text ts s ≡ ok t
      → Seen i s
      → Seen i t
  unfolding lldp_fold
  lldp_fold-Seen i [] s t h v = subst (λ q. Seen i q) (ground (arith, h)) v
  lldp_fold-Seen i (x ∷ xs) s t h v = elim (Result-cases (lldp_tlv unicode ipv6_text x s)) [
    | inr (e, failed) ↦ absurd (ground arith)
    | inl (s', done) ↦ lldp_fold-Seen i xs s' t (ground arith) (lldp_tlv-Seen i x s s' done v)
  ]

  lldp_run-Seen :
      (i : Option Text) (y : Yielded) (s t : LldpState)
      → lldp_run unicode ipv6_text y s ≡ ok t
      → Seen i s
      → Seen i t
  unfolding lldp_run
  lldp_run-Seen i y s t h v = elim (Result-cases (lldp_fold unicode ipv6_text y.tlvs s)) [
    | inr (e, failed) ↦ absurd (ground arith)
    | inl (s', done) ↦ elim (Option-cases y.outcome) [
      | inr (e, raised) ↦ absurd (ground arith)
      | inl returned ↦
          let same : s' ≡ t = ground arith in
          subst (λ q. Seen i q) same (lldp_fold-Seen i y.tlvs s s' done v)
    ]
  ]

  lldp_start-Seen : (i : Option Text) → Seen i (lldp_start i)
  lldp_start-Seen i = record { chassis = λ h. cc; port = λ h. cc; ttl = λ h. cc; interface = refl }

  -- The value of an identity: it is read from the frame's last element of its type, and in the
  -- subtype for hardware addresses it is the text of the six bytes behind the subtype.
  abbrev pub IsIdentity :
      (List ℕ → Result LinkError (Text × Text)) → ℕ → ℕ → List Tlv → Text × Text → Type 0
  IsIdentity read type mac tlvs c =
      (value : List ℕ) × (latest type tlvs ≡ some value)
      × (read value ≡ ok c)
      × (byte_at value 0 ≡ mac → (length value ≡ 7) × (c.1 ≡ mac_text (drop 1 value)))

  -- An observation of a neighbour: both identities and the lifetime, the number in the last element
  -- of its type, behind which it expires.
  pub record IsLldpNeighbor (frame : PassiveFrame) (o : PassiveObservation LldpFields)
      : Type 0 where
    pub protocol : frame.protocol ≡ codes "lldp"
    pub chassis : Text × Text
    pub shown_chassis : o.fields.chassis_id ≡ some chassis
    pub chassis_read :
        IsIdentity (read_chassis unicode ipv6_text) 1 4 (lldp_tlvs frame.payload).tlvs chassis
    pub port : Text × Text
    pub shown_port : o.fields.port_id ≡ some port
    pub port_read : IsIdentity (read_port unicode ipv6_text) 2 3 (lldp_tlvs frame.payload).tlvs port
    pub lifetime : List ℕ
    pub last_lifetime : latest 3 (lldp_tlvs frame.payload).tlvs ≡ some lifetime
    pub two_bytes : length lifetime ≡ 2
    pub ttl : o.fields.ttl_seconds ≡ some (be_value lifetime)
    pub expires : o.expires_at ≡ some (frame.observed_at + be_value lifetime * second)
    pub interface : o.fields.local_interface ≡ frame.interface

  parsed :
      (frame : PassiveFrame) (o : PassiveObservation LldpFields)
      → parse_lldp unicode ipv6_text frame ≡ ok o
      → (s : LldpState) × (Seen frame.interface s)
        × AllRead unicode ipv6_text
            (lldp_tlvs frame.payload).tlvs
            (lldp_start frame.interface).fields
            s.fields
        × (has 1 s.required ≡ true)
        × (has 2 s.required ≡ true)
        × (has 3 s.required ≡ true)
        × (frame.protocol ≡ codes "lldp")
        × (o ≡ lldp_observation unicode ipv6_text frame s.fields)
  unfolding parse_lldp
  parsed frame o h =
      let start = lldp_start frame.interface in
      let tlvs = lldp_tlvs frame.payload in
      elim (Result-cases (lldp_run unicode ipv6_text tlvs start)) [
        | inr (e, failed) ↦ absurd (ground arith)
        | inl (s, run) ↦ (
          s,
          lldp_run-Seen frame.interface tlvs start s run (lldp_start-Seen frame.interface),
          lldp_run-AllRead unicode ipv6_text tlvs start s run,
          elim (Bool-cases (has 1 s.required)) [
            | inl there ↦ there
            | inr away ↦ absurd (ground arith)
          ],
          elim (Bool-cases (has 2 s.required)) [
            | inl there ↦ there
            | inr away ↦ absurd (ground arith)
          ],
          elim (Bool-cases (has 3 s.required)) [
            | inl there ↦ there
            | inr away ↦ absurd (ground arith)
          ],
          ground (arith, list_beq_iff frame.protocol (codes "lldp")),
          ground arith,
        )
      ]

  -- An accepted LLDP frame is of that protocol. Its observation shows the chassis and the port that
  -- are read from the frame's last elements of type 1 and 2, in the subtypes for hardware addresses
  -- the text of their six bytes, and as the lifetime the number of two bytes in the last element of
  -- type 3; it expires behind this lifetime, and shows the frame's interface.
  pub parse_lldp-IsLldpNeighbor :
      (frame : PassiveFrame) (o : PassiveObservation LldpFields)
      → parse_lldp unicode ipv6_text frame ≡ ok o
      → IsLldpNeighbor frame o
  unfolding lldp_observation
  parse_lldp-IsLldpNeighbor frame o h =
      let (s, v, read, one, two, three, protocol, made) = parsed frame o h in
      let tlvs = (lldp_tlvs frame.payload).tlvs in
      let (c, at_c, (c_value, c_last, c_good)) =
        Reads-shown (read_chassis unicode ipv6_text) 1 tlvs s.fields.chassis_id (v.chassis one)
          read.chassis in
      let (q, at_q, (q_value, q_last, q_good)) =
        Reads-shown (read_port unicode ipv6_text) 2 tlvs s.fields.port_id (v.port two) read.port in
      let (n, at_n, (n_value, n_last, n_good)) =
        Reads-shown (read_ttl unicode ipv6_text) 3 tlvs s.fields.ttl_seconds (v.ttl three)
          read.ttl in
      let (size, number) = read_ttl-value unicode ipv6_text n_value n n_good in
      let shown_ttl : s.fields.ttl_seconds ≡ some (be_value n_value) =
        at_n ∙ ap (λ m. some m) number in
      subst (λ u. IsLldpNeighbor frame u) (sym made)
        (record {
          protocol = protocol;
          chassis = c;
          shown_chassis = at_c;
          chassis_read = (c_value, c_last, c_good, chassis-mac unicode ipv6_text c_value c c_good);
          port = q;
          shown_port = at_q;
          port_read = (q_value, q_last, q_good, port-mac unicode ipv6_text q_value q q_good);
          lifetime = n_value;
          last_lifetime = n_last;
          two_bytes = size;
          ttl = shown_ttl;
          expires = rw shown_ttl refl;
          interface = v.interface;
        })
