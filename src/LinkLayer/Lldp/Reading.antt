-- ===== src/LinkLayer/Lldp/Reading.antt =====
-- link_layer.py, `parse_lldp`: from which elements the mandatory fields are read.
use codexnet.Prelude.{
  ℕ, ◌≡◌, refl, List, [], ◌∷◌, nat_beq, nat_beq_iff, arith, inl, inr, Bool-cases, Option-cases, sym,
  ap, drop, length, byte_at, length-drop,
}
use mathlib.Core.Path.{subst}
use codexnet.Prelude.Keys.{nat_eq}
use codexnet.Prelude.Result.{Result, ok, Result-cases}
use codexnet.Prelude.Text.{Text, mac_text, be_value}
use codexnet.Passive.Types.{Unicode}
use codexnet.LinkLayer.Tlvs.{Tlv, Yielded, LinkError}
use codexnet.LinkLayer.Values.{identifier, identifier_of, Identity, mac_subtype, chassis, port}
use codexnet.LinkLayer.Latest.{Reads, ReadsOne, Reads-cons}
use codexnet.LinkLayer.Lldp.{
  LldpFields, LldpState, lldp_ttl, lldp_value, lldp_tlv, lldp_fold, lldp_run,
}

module _ (unicode : Unicode) (ipv6_text : List ℕ → Text) where
  abbrev pub read_chassis : List ℕ → Result LinkError (Text × Text)
  read_chassis value = identifier unicode ipv6_text value chassis

  abbrev pub read_port : List ℕ → Result LinkError (Text × Text)
  read_port value = identifier unicode ipv6_text value port

  abbrev pub read_ttl : List ℕ → Result LinkError ℕ
  read_ttl value = lldp_ttl unicode ipv6_text value

  -- What one element makes of the mandatory fields.
  pub record OneRead (t : Tlv) (f g : LldpFields) : Type 0 where
    chassis : ReadsOne read_chassis 1 t f.chassis_id g.chassis_id
    port : ReadsOne read_port 2 t f.port_id g.port_id
    ttl : ReadsOne read_ttl 3 t f.ttl_seconds g.ttl_seconds

  lldp_value-OneRead :
      (t : Tlv) (f g : LldpFields)
      → lldp_value unicode ipv6_text t.type t.value f ≡ ok g
      → OneRead t f g
  unfolding lldp_value
  lldp_value-OneRead t f g h = record {
    chassis = (
      λ is. elim (Result-cases (read_chassis t.value)) [
        | inr (e, bad) ↦ absurd (ground arith)
        | inl (a, good) ↦ (a, good, ground arith)
      ],
      λ other. ground arith,
    );
    port = (
      λ is. elim (Result-cases (read_port t.value)) [
        | inr (e, bad) ↦ absurd (ground arith)
        | inl (a, good) ↦ (a, good, ground arith)
      ],
      λ other. ground arith,
    );
    ttl = (
      λ is. elim (Result-cases (read_ttl t.value)) [
        | inr (e, bad) ↦ absurd (ground arith)
        | inl (a, good) ↦ (a, good, ground arith)
      ],
      λ other. ground arith,
    );
  }

  ended_same : (t : Tlv) (f : LldpFields) → t.type ≡ 0 → OneRead t f f
  ended_same t f at = record {
    chassis = (λ is. absurd (omega (arith, at, is)), λ other. refl);
    port = (λ is. absurd (omega (arith, at, is)), λ other. refl);
    ttl = (λ is. absurd (omega (arith, at, is)), λ other. refl);
  }

  lldp_tlv-OneRead :
      (t : Tlv) (s s' : LldpState)
      → lldp_tlv unicode ipv6_text t s ≡ ok s'
      → OneRead t s.fields s'.fields
  unfolding lldp_tlv
  lldp_tlv-OneRead t s s' h = elim (Bool-cases (nat_beq t.type 0)) [
    | inl at_end ↦
        let same : s.fields ≡ s'.fields = ground arith in
        subst (OneRead t s.fields) same (ended_same t s.fields ((nat_beq_iff t.type 0).0 at_end))
    | inr no_end ↦ elim (Result-cases (lldp_value unicode ipv6_text t.type t.value s.fields)) [
      | inr (e, failed) ↦ absurd (ground arith)
      | inl (g, written) ↦
          let same : g ≡ s'.fields = ground arith in
          subst (OneRead t s.fields) same (lldp_value-OneRead t s.fields g written)
    ]
  ]

  -- What the elements make of the mandatory fields.
  pub record AllRead (ts : List Tlv) (f g : LldpFields) : Type 0 where
    pub chassis : Reads read_chassis 1 ts f.chassis_id g.chassis_id
    pub port : Reads read_port 2 ts f.port_id g.port_id
    pub ttl : Reads read_ttl 3 ts f.ttl_seconds g.ttl_seconds

  lldp_fold-AllRead :
      (ts : List Tlv) (s t : LldpState)
      → lldp_fold unicode ipv6_text ts s ≡ ok t
      → AllRead ts s.fields t.fields
  unfolding lldp_fold
  lldp_fold-AllRead [] s t h =
      let same : s ≡ t = ground (arith, h) in
      record {
        chassis = inl (refl, sym (ap (λ (q : LldpState). q.fields.chassis_id) same));
        port = inl (refl, sym (ap (λ (q : LldpState). q.fields.port_id) same));
        ttl = inl (refl, sym (ap (λ (q : LldpState). q.fields.ttl_seconds) same));
      }
  lldp_fold-AllRead (x ∷ xs) s t h = elim (Result-cases (lldp_tlv unicode ipv6_text x s)) [
    | inr (e, failed) ↦ absurd (ground arith)
    | inl (s', done) ↦
        let one = lldp_tlv-OneRead x s s' done in
        let rest = lldp_fold-AllRead xs s' t (ground arith) in
        record {
          chassis =
              Reads-cons read_chassis 1 x xs s.fields.chassis_id s'.fields.chassis_id
                t.fields.chassis_id one.chassis rest.chassis;
          port =
              Reads-cons read_port 2 x xs s.fields.port_id s'.fields.port_id t.fields.port_id
                one.port rest.port;
          ttl =
              Reads-cons read_ttl 3 x xs s.fields.ttl_seconds s'.fields.ttl_seconds
                t.fields.ttl_seconds one.ttl rest.ttl;
        }
  ]

  pub lldp_run-AllRead :
      (y : Yielded) (s t : LldpState)
      → lldp_run unicode ipv6_text y s ≡ ok t
      → AllRead y.tlvs s.fields t.fields
  unfolding lldp_run
  lldp_run-AllRead y s t h = elim (Result-cases (lldp_fold unicode ipv6_text y.tlvs s)) [
    | inr (e, failed) ↦ absurd (ground arith)
    | inl (s', done) ↦ elim (Option-cases y.outcome) [
      | inr (e, raised) ↦ absurd (ground arith)
      | inl returned ↦
          let same : s' ≡ t = ground arith in
          subst (λ q. AllRead y.tlvs s.fields q.fields) same (lldp_fold-AllRead y.tlvs s s' done)
    ]
  ]

  -- The identifier of the subtype for hardware addresses is the text of the address.
  identifier-mac :
      (identity : Identity) (value : List ℕ) (name text : Text)
      → identifier unicode ipv6_text value identity ≡ ok (name, text)
      → byte_at value 0 ≡ mac_subtype identity
      → (length value ≡ 7) × (text ≡ mac_text (drop 1 value))
  unfolding identifier identifier_of
  identifier-mac identity value name text h is =
      let size = length-drop 1 value in (ground (arith, size), ground arith)

  pub chassis-mac :
      (value : List ℕ) (c : Text × Text)
      → read_chassis value ≡ ok c
      → byte_at value 0 ≡ 4
      → (length value ≡ 7) × (c.1 ≡ mac_text (drop 1 value))
  chassis-mac value (name, text) = identifier-mac chassis value name text

  pub port-mac :
      (value : List ℕ) (c : Text × Text)
      → read_port value ≡ ok c
      → byte_at value 0 ≡ 3
      → (length value ≡ 7) × (c.1 ≡ mac_text (drop 1 value))
  port-mac value (name, text) = identifier-mac port value name text

  pub read_ttl-value :
      (value : List ℕ) (n : ℕ) → read_ttl value ≡ ok n → (length value ≡ 2) × (n ≡ be_value value)
  unfolding lldp_ttl
  read_ttl-value value n h = (ground arith, ground arith)
