-- ===== src/LinkLayer/Cdp.antt =====
-- link_layer.py, `parse_cdp`.
pub mod Accepted
use codexnet.LinkLayer.Tlvs.{
  missing_identity, unsupported_version, bad_frame_length, bad_capabilities, bad_vlan,
  wrong_protocol, LinkError, Tlv, Yielded, cdp_tlvs,
}
use codexnet.Prelude.{
  ℕ, ◌+◌, ◌*◌, Bool, true, false, not, ◌||◌, ◌&&◌, Option, none, some, List, [], ◌∷◌, length, drop,
  byte_at, ltb, nat_beq, if◌then◌else◌,
}
use codexnet.Prelude.Keys.{list_beq, nat_eq}
use codexnet.Prelude.Result.{Result, ok, err, ◌>>=◌, ◌>>◌, raise_if}
use codexnet.Prelude.Text.{Text, codes, be_value}
use codexnet.Passive.Types.{Unicode, PassiveFrame, PassiveObservation, second}
use codexnet.LinkLayer.Values.{link_text, capability_names, cdp_capabilities, cdp_addresses}

-- The fields of the observation. `chassis_id` is also the `system_name`, and the first of the
-- management addresses the `management_address`; the subtypes of the identities are constants.
pub record CdpFields : Type 0 where
  pub protocol_version : ℕ
  pub ttl_seconds : ℕ
  pub local_interface : Option Text
  pub chassis_id : Option Text
  pub management_addresses : List Text
  pub port_id : Option Text
  pub capabilities_enabled : Option (List Text)
  pub system_description : Option Text
  pub platform : Option Text
  pub vlan_id : Option ℕ

abbrev pub cdp_start : ℕ → ℕ → Option Text → CdpFields
cdp_start version ttl interface = record {
  protocol_version = version;
  ttl_seconds = ttl;
  local_interface = interface;
  chassis_id = none;
  management_addresses = [];
  port_id = none;
  capabilities_enabled = none;
  system_description = none;
  platform = none;
  vlan_id = none;
}

-- if addresses: ...
abbrev if_any : List Text → List Text → List Text
if_any [] before = before
if_any (a ∷ addresses) before = a ∷ addresses

module _ (unicode : Unicode) (ipv6_text : List ℕ → Text) where
  unfoldable pub cdp_capability_names : List ℕ → Result LinkError (List Text)
  cdp_capability_names value =
      if nat_beq (length value) 4
      then ok (capability_names (be_value value) cdp_capabilities)
      else err bad_capabilities

  unfoldable pub cdp_vlan : List ℕ → Result LinkError ℕ
  cdp_vlan value = if nat_beq (length value) 2 then ok (be_value value) else err bad_vlan

  -- The body of the loop.
  unfoldable pub cdp_tlv : Tlv → CdpFields → Result LinkError CdpFields
  cdp_tlv t f =
      if nat_beq t.type 0x0001
      then (do v ← link_text unicode ipv6_text t.value 255; ok (record f { chassis_id = some v }))
      else if nat_beq t.type 0x0002 || nat_beq t.type 0x0016
      then (do
        v ← cdp_addresses unicode ipv6_text t.value
        ok (record f { management_addresses = if_any v f.management_addresses }))
      else if nat_beq t.type 0x0003
      then (do v ← link_text unicode ipv6_text t.value 255; ok (record f { port_id = some v }))
      else if nat_beq t.type 0x0004
      then (do v ← cdp_capability_names t.value; ok (record f { capabilities_enabled = some v }))
      else if nat_beq t.type 0x0005
      then (do
        v ← link_text unicode ipv6_text t.value 1024
        ok (record f { system_description = some v }))
      else if nat_beq t.type 0x0006
      then (do v ← link_text unicode ipv6_text t.value 255; ok (record f { platform = some v }))
      else if nat_beq t.type 0x000a
      then (do v ← cdp_vlan t.value; ok (record f { vlan_id = some v }))
      else ok f

  unfoldable pub cdp_fold : List Tlv → CdpFields → Result LinkError CdpFields
  cdp_fold [] f = ok f
  cdp_fold (t ∷ ts) f = do f' ← cdp_tlv t f; cdp_fold ts f'

  abbrev finish : Option LinkError → CdpFields → Result LinkError CdpFields
  finish none f = ok f
  finish (some e) f = err e

  -- The loop over the generator: what it yields is handled before what it raises.
  unfoldable pub cdp_run : Yielded → CdpFields → Result LinkError CdpFields
  cdp_run y f = do f' ← cdp_fold y.tlvs f; finish y.outcome f'

  abbrev pub given : Option Text → Bool
  given none = false
  given (some t) = true

  unfoldable pub cdp_observation : PassiveFrame → CdpFields → PassiveObservation CdpFields
  cdp_observation frame fields = record {
    kind = codes "link_layer_neighbor";
    fields = fields;
    source = codes "passive:cdp";
    observed_at = some frame.observed_at;
    expires_at = some (frame.observed_at + fields.ttl_seconds * second);
  }

  unfoldable pub parse_cdp : PassiveFrame → Result LinkError (PassiveObservation CdpFields)
  parse_cdp frame = do
    let payload = frame.payload
    let version = byte_at payload 0
    raise_if (not (list_beq frame.protocol (codes "cdp"))) wrong_protocol
    raise_if (ltb (length payload) 4 || ltb 8192 (length payload)) bad_frame_length
    raise_if (not (nat_beq version 1 || nat_beq version 2)) unsupported_version
    fields ←
        cdp_run (cdp_tlvs (drop 4 payload)) (cdp_start version (byte_at payload 1) frame.interface)
    raise_if (not (given fields.chassis_id && given fields.port_id)) missing_identity
    ok (cdp_observation frame fields)
