-- ===== src/Mdns/Fields.antt =====
-- mdns.py, `_observation` and `_identity`: what an observation shows of a record.
use codexnet.Prelude.{
  ℕ, ◌+◌, ◌*◌, ◌≡◌, ◌↔◌, Bool, true, false, ◌&&◌, some, arith, min, nat_beq, if◌then◌else◌,
}
use codexnet.Prelude.Keys.{Eq, nat_eq, list_eq, pair_eq, list_beq, list_beq_iff}
use codexnet.Prelude.Text.{Text, codes}
use codexnet.Passive.Types.{Instant, PassiveObservation, second}
use codexnet.Mdns.Message.{
  TxtValue, one, several, TxtMap, RecordValue, ipv4, pointer, service, txt, Record,
}

-- The fields of an observation without its action; the constructor tells its kind.
pub data MdnsFields : Type 0 where
  service_fields : Text → Text → MdnsFields
  instance_fields : Text → Text → ℕ → ℕ → ℕ → MdnsFields
  address_fields : Text → Text → MdnsFields
  txt_fields : Text → TxtMap → MdnsFields

pub data Action : Type 0 where
  announce goodbye expired : Action

pub record Shown : Type 0 where
  pub fields : MdnsFields
  pub action : Action

abbrev pub kind_of : MdnsFields → Text
kind_of (service_fields _ _) = codes "mdns_service"
kind_of (instance_fields _ _ _ _ _) = codes "mdns_instance"
kind_of (address_fields _ _) = codes "mdns_address"
kind_of (txt_fields _ _) = codes "mdns_txt"

unfoldable pub fields_of : Text → RecordValue → MdnsFields
fields_of name (pointer target) = service_fields name target
fields_of name (service priority weight port hostname) =
    instance_fields name hostname port priority weight
fields_of name (ipv4 address) = address_fields name address
fields_of name (txt values) = txt_fields name values

-- observed_at + timedelta(seconds=min(ttl, max_ttl_seconds)), or observed_at for a goodbye
unfoldable pub expiry : ℕ → ℕ → Instant → Instant
expiry max_ttl ttl observed_at =
    if nat_beq ttl 0 then observed_at else observed_at + min ttl max_ttl * second

-- _observation
unfoldable pub observation : ℕ → Record → Instant → PassiveObservation Shown
observation max_ttl r observed_at =
    let fields = fields_of r.name r.value in
    record {
      kind = kind_of fields;
      fields = record { fields = fields; action = if nat_beq r.ttl 0 then goodbye else announce };
      source = codes "mdns";
      observed_at = some observed_at;
      expires_at = some (expiry max_ttl r.ttl observed_at);
    }

abbrev txt_beq : TxtValue → TxtValue → Bool
txt_beq (one a) (one b) = list_beq a b
txt_beq (several a) (several b) = list_beq a b
txt_beq _ _ = false

txt_beq_iff : (a b : TxtValue) → (txt_beq a b ≡ true) ↔ (a ≡ b)
txt_beq_iff (one a) (one b) = ground (arith, list_beq_iff a b)
txt_beq_iff (one a) (several b) = ground arith
txt_beq_iff (several a) (one b) = ground arith
txt_beq_iff (several a) (several b) = ground (arith, list_beq_iff a b)

instance abbrev txt_eq : Eq TxtValue
txt_eq = record { beq = txt_beq; beq_iff = txt_beq_iff }

-- `_identity` gives the kind and the `repr` of the fields without the action. Two of them are equal
-- exactly if these fields are, a mapping's order counted, so that the fields stand for it.
unfoldable pub same_identity : MdnsFields → MdnsFields → Bool
same_identity (service_fields a b) (service_fields c d) = list_beq a c && list_beq b d
same_identity (instance_fields a b p q r) (instance_fields c d s t u) =
    list_beq a c && list_beq b d && nat_beq p s && nat_beq q t && nat_beq r u
same_identity (address_fields a b) (address_fields c d) = list_beq a c && list_beq b d
same_identity (txt_fields a v) (txt_fields c w) = list_beq a c && list_beq v w
same_identity _ _ = false

pub same_identity_iff : (a b : MdnsFields) → (same_identity a b ≡ true) ↔ (a ≡ b)
unfolding same_identity
same_identity_iff (service_fields a b) (service_fields c d) =
    ground (arith, list_beq_iff a c, list_beq_iff b d)
same_identity_iff (instance_fields a b p q r) (instance_fields c d s t u) =
    ground (arith, list_beq_iff a c, list_beq_iff b d)
same_identity_iff (address_fields a b) (address_fields c d) =
    ground (arith, list_beq_iff a c, list_beq_iff b d)
same_identity_iff (txt_fields a v) (txt_fields c w) =
    ground (arith, list_beq_iff a c, list_beq_iff v w)
same_identity_iff (service_fields a b) y = ground arith
same_identity_iff (instance_fields a b p q r) y = ground arith
same_identity_iff (address_fields a b) y = ground arith
same_identity_iff (txt_fields a v) y = ground arith

instance abbrev pub identity_eq : Eq MdnsFields
identity_eq = record { beq = same_identity; beq_iff = same_identity_iff }
