-- ===== src/Correlation/Evidence.antt =====
-- correlation.py: the evidence records with their `__post_init__`, their sort keys, and the results.
use codexnet.Prelude.{◌&&◌, ltb, ◌∷◌, [], ℕ, ◌++◌, Bool, List, Option, none, some, true, false, not}
use codexnet.Prelude.Result.{ok, Result, ◌>>=◌, ◌>>◌, raise_if}
use codexnet.Prelude.Text.{codes, strip, Text}
use codexnet.Correlation.Identity.{
  CorrelationError, naive_timestamp, bad_confidence, bad_namespace, IdentifierKind, mac, serial,
  source_id, hostname, ipv4, kind_value, Platform, Moment, require_text, normalize_mac,
  normalize_identifier,
}

pub record IdentityEvidence : Type 0 where
  pub kind : IdentifierKind
  pub value : Text
  pub source : Text
  pub observed_at : Moment
  pub confidence : ℕ
  pub namespace : Option Text

pub record InterfaceEvidence : Type 0 where
  pub interface_key : Text
  pub source : Text
  pub observed_at : Moment
  pub name : Option Text
  pub mac_address : Option Text
  pub confidence : ℕ

pub record FactEvidence : Type 0 where
  pub field : Text
  pub value : Text
  pub source : Text
  pub observed_at : Moment
  pub confidence : ℕ

pub record DeviceObservation : Type 0 where
  pub observation_id : Text
  pub source : Text
  pub observed_at : Moment
  pub identifiers : List IdentityEvidence
  pub interfaces : List InterfaceEvidence
  pub facts : List FactEvidence

pub record CorrelationDecision : Type 0 where
  pub left_observation_id : Text
  pub right_observation_id : Text
  pub evidence_key : Text
  pub confidence : ℕ
  pub reason : Text

pub record CorrelationConflict : Type 0 where
  pub conflict_kind : Text
  pub key : Text
  pub canonical_keys : List Text
  pub values : List Text
  pub observation_ids : List Text
  pub explanation : Text

pub record CanonicalDevice : Type 0 where
  pub canonical_key : Text
  pub observation_ids : List Text
  pub identifiers : List IdentityEvidence
  pub interfaces : List InterfaceEvidence
  pub facts : List FactEvidence
  pub confidence : ℕ

pub record CorrelationResult : Type 0 where
  pub devices : List CanonicalDevice
  pub decisions : List CorrelationDecision
  pub conflicts : List CorrelationConflict

-- IdentityEvidence.key
abbrev pub evidence_key_of : IdentityEvidence → Text
evidence_key_of item = kind_value item.kind ++ b':' ∷ item.value

abbrev is_source_id : IdentifierKind → Bool
is_source_id source_id = true
is_source_id mac = false
is_source_id serial = false
is_source_id hostname = false
is_source_id ipv4 = false

abbrev is_given : Option Text → Bool
is_given none = false
is_given (some s) = true

abbrev checked_name : Option Text → Result CorrelationError (Option Text)
checked_name none = ok none
checked_name (some s) = do text ← require_text s (codes "interface name") 256; ok (some text)

abbrev checked_mac_address : Option Text → Result CorrelationError (Option Text)
checked_mac_address none = ok none
checked_mac_address (some s) = do text ← normalize_mac s; ok (some text)

module _ (p : Platform) where
  -- namespace.strip().casefold()
  abbrev folded : Option Text → Option Text
  folded none = none
  folded (some s) = some (p.casefold (strip s))

  unfoldable pub new_identity :
      IdentifierKind
      → Text
      → Text
      → Moment
      → ℕ
      → Option Text
      → Result CorrelationError IdentityEvidence
  new_identity kind' value' source' observed_at' confidence' namespace' = do
    source'' ← require_text source' (codes "source") 128
    raise_if (not observed_at'.is_aware) naive_timestamp
    raise_if (ltb p.one confidence') bad_confidence
    value'' ← normalize_identifier p kind' value' namespace'
    raise_if (not (is_source_id kind') && is_given namespace') bad_namespace
    ok (record {
      kind = kind';
      value = value'';
      source = source'';
      observed_at = observed_at';
      confidence = confidence';
      namespace = folded namespace';
    })

  unfoldable pub new_interface :
      Text
      → Text
      → Moment
      → Option Text
      → Option Text
      → ℕ
      → Result CorrelationError InterfaceEvidence
  new_interface interface_key' source' observed_at' name' mac_address' confidence' = do
    key ← require_text interface_key' (codes "interface key") 512
    source'' ← require_text source' (codes "source") 128
    raise_if (not observed_at'.is_aware) naive_timestamp
    raise_if (ltb p.one confidence') bad_confidence
    name'' ← checked_name name'
    mac_address'' ← checked_mac_address mac_address'
    ok (record {
      interface_key = key;
      source = source'';
      observed_at = observed_at';
      name = name'';
      mac_address = mac_address'';
      confidence = confidence';
    })

  unfoldable pub new_fact : Text → Text → Text → Moment → ℕ → Result CorrelationError FactEvidence
  new_fact field' value' source' observed_at' confidence' = do
    name ← require_text field' (codes "fact field") 128
    value'' ← require_text value' (codes "fact value") 1024
    source'' ← require_text source' (codes "source") 128
    raise_if (not observed_at'.is_aware) naive_timestamp
    raise_if (ltb p.one confidence') bad_confidence
    ok (record {
      field = p.casefold name;
      value = value'';
      source = source'';
      observed_at = observed_at';
      confidence = confidence';
    })

-- DeviceObservation(...) of evidence that is built already
unfoldable pub new_device_observation :
    Text
    → Text
    → Moment
    → List IdentityEvidence
    → List InterfaceEvidence
    → List FactEvidence
    → Result CorrelationError DeviceObservation
new_device_observation id source' observed_at' identifiers' interfaces' facts' = do
  id' ← require_text id (codes "observation ID") 512
  source'' ← require_text source' (codes "source") 128
  raise_if (not observed_at'.is_aware) naive_timestamp
  ok (record {
    observation_id = id';
    source = source'';
    observed_at = observed_at';
    identifiers = identifiers';
    interfaces = interfaces';
    facts = facts';
  })

-- _identity_sort_key
abbrev pub identity_sort_key : IdentityEvidence → Text × (Text × (Text × (Text × ℕ)))
identity_sort_key item = (
  kind_value item.kind,
  (item.value, (item.source, (item.observed_at.isoformat, item.confidence))),
)

abbrev text_or_empty : Option Text → Text
text_or_empty none = []
text_or_empty (some s) = s

-- _interface_sort_key
abbrev pub interface_sort_key : InterfaceEvidence → Text × (Text × (Text × Text))
interface_sort_key item = (
  item.interface_key,
  (item.source, (item.observed_at.isoformat, text_or_empty item.mac_address)),
)

-- _fact_sort_key
abbrev pub fact_sort_key : Platform → FactEvidence → Text × (Text × (Text × Text))
fact_sort_key p item =
    (item.field, (p.casefold item.value, (item.source, item.observed_at.isoformat)))
