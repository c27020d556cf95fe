-- ===== src/LinkLayer/Lldp.antt =====
-- link_layer.py, `parse_lldp`.
pub mod Accepted
pub mod Reading
use codexnet.LinkLayer.Tlvs.{
  missing_mandatory, missing_end, bad_ttl, duplicate_mandatory, wrong_protocol, LinkError, Tlv,
  Yielded, lldp_tlvs,
}
use codexnet.Prelude.{
  ℕ, ◌+◌, ◌*◌, Bool, true, false, not, ◌||◌, ◌&&◌, Option, none, some, List, [], ◌∷◌, length, any,
  nat_beq, if◌then◌else◌,
}
use codexnet.Prelude.Keys.{list_beq, nat_eq}
use codexnet.Prelude.Result.{Result, ok, err, ◌>>=◌, ◌>>◌, raise_if}
use codexnet.Prelude.Text.{Text, codes, be_value}
use codexnet.Passive.Types.{Unicode, PassiveFrame, PassiveObservation, second}
use codexnet.LinkLayer.Values.{
  chassis, port, link_text, identifier, capabilities, management_address, organizational,
}

-- The fields of the observation; a key that is not written is `none`.
pub record LldpFields : Type 0 where
  pub local_interface : Option Text
  pub chassis_id : Option (Text × Text)
  pub port_id : Option (Text × Text)
  pub ttl_seconds : Option ℕ
  pub port_description : Option Text
  pub system_name : Option Text
  pub system_description : Option Text
  pub capabilities : Option (List Text × List Text)
  pub management_address : Option Text
  pub vlan_id : Option ℕ

-- The local variables of the loop.
pub record LldpState : Type 0 where
  pub fields : LldpFields
  pub required : List ℕ
  pub ended : Bool

abbrev pub lldp_start : Option Text → LldpState
lldp_start interface = record {
  fields = record {
    local_interface = interface;
    chassis_id = none;
    port_id = none;
    ttl_seconds = none;
    port_description = none;
    system_name = none;
    system_description = none;
    capabilities = none;
    management_address = none;
    vlan_id = none;
  };
  required = [];
  ended = false;
}

abbrev pub has : ℕ → List ℕ → Bool
has k ks = any (λ j. nat_beq j k) ks

abbrev or_before : Option ℕ → Option ℕ → Option ℕ
or_before none before = before
or_before (some vlan) before = some vlan

-- tlv_type in {1, 2, 3}
abbrev pub is_mandatory : ℕ → Bool
is_mandatory type = nat_beq type 1 || nat_beq type 2 || nat_beq type 3

module _ (unicode : Unicode) (ipv6_text : List ℕ → Text) where
  unfoldable pub lldp_ttl : List ℕ → Result LinkError ℕ
  lldp_ttl value = if nat_beq (length value) 2 then ok (be_value value) else err bad_ttl

  -- What the branches for the types write.
  unfoldable pub lldp_value : ℕ → List ℕ → LldpFields → Result LinkError LldpFields
  lldp_value type value f =
      if nat_beq type 1
      then (do
        v ← identifier unicode ipv6_text value chassis
        ok (record f { chassis_id = some v }))
      else if nat_beq type 2
      then (do v ← identifier unicode ipv6_text value port; ok (record f { port_id = some v }))
      else if nat_beq type 3
      then (do v ← lldp_ttl value; ok (record f { ttl_seconds = some v }))
      else if nat_beq type 4
      then (do
        v ← link_text unicode ipv6_text value 512
        ok (record f { port_description = some v }))
      else if nat_beq type 5
      then (do v ← link_text unicode ipv6_text value 255; ok (record f { system_name = some v }))
      else if nat_beq type 6
      then (do
        v ← link_text unicode ipv6_text value 1024
        ok (record f { system_description = some v }))
      else if nat_beq type 7
      then (do v ← capabilities unicode ipv6_text value; ok (record f { capabilities = some v }))
      else if nat_beq type 8
      then (do
        v ← management_address unicode ipv6_text value
        ok (record f { management_address = some v }))
      else if nat_beq type 127
      then (do
        v ← organizational unicode ipv6_text value
        ok (record f { vlan_id = or_before v f.vlan_id }))
      else ok f

  -- The body of the loop.
  unfoldable pub lldp_tlv : Tlv → LldpState → Result LinkError LldpState
  lldp_tlv t s =
      if nat_beq t.type 0
      then ok (record s { ended = true })
      else if is_mandatory t.type && has t.type s.required
      then err duplicate_mandatory
      else (do
        fields ← lldp_value t.type t.value s.fields
        ok (record s {
          fields = fields;
          required = if is_mandatory t.type then t.type ∷ s.required else s.required;
        }))

  unfoldable pub lldp_fold : List Tlv → LldpState → Result LinkError LldpState
  lldp_fold [] s = ok s
  lldp_fold (t ∷ ts) s = do s' ← lldp_tlv t s; lldp_fold ts s'

  abbrev finish : Option LinkError → LldpState → Result LinkError LldpState
  finish none s = ok s
  finish (some e) s = err e

  -- The loop over the generator: what it yields is handled before what it raises.
  unfoldable pub lldp_run : Yielded → LldpState → Result LinkError LldpState
  lldp_run y s = do s' ← lldp_fold y.tlvs s; finish y.outcome s'

  abbrev ttl_or_zero : Option ℕ → ℕ
  ttl_or_zero none = 0
  ttl_or_zero (some n) = n

  unfoldable pub lldp_observation : PassiveFrame → LldpFields → PassiveObservation LldpFields
  lldp_observation frame fields = record {
    kind = codes "link_layer_neighbor";
    fields = fields;
    source = codes "passive:lldp";
    observed_at = some frame.observed_at;
    expires_at = some (frame.observed_at + ttl_or_zero fields.ttl_seconds * second);
  }

  -- parse_lldp: behind the tests for the mandatory elements the lifetime is there
  unfoldable pub parse_lldp : PassiveFrame → Result LinkError (PassiveObservation LldpFields)
  parse_lldp frame = do
    raise_if (not (list_beq frame.protocol (codes "lldp"))) wrong_protocol
    s ← lldp_run (lldp_tlvs frame.payload) (lldp_start frame.interface)
    raise_if (not s.ended) missing_end
    raise_if (not (has 1 s.required && has 2 s.required && has 3 s.required)) missing_mandatory
    ok (lldp_observation frame s.fields)
