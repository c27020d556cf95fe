-- ===== src/Mdns/Cache.antt =====
-- mdns.py, `MDNSParser`: the cache of announced records.
pub mod Kept
pub mod Calls
use codexnet.Mdns.Fields.{expiry, MdnsFields, identity_eq, Shown, expired, fields_of, observation}
use codexnet.Prelude.{
  ℕ, Bool, ◌||◌, not, Option, none, some, List, [], ◌∷◌, ◌++◌, length, ltb, leb, nat_beq,
  if◌then◌else◌,
}
use codexnet.Prelude.Keys.{list_beq, nat_eq}
use codexnet.Prelude.Result.{Result, ok, err}
use codexnet.Prelude.Text.{Text, codes}
use codexnet.OrderedDict.{OrderedDict, remove, set_last}
use codexnet.OrderedDict.Shrink.{shrink}
use codexnet.OrderedDict.Sweep.{kept, removed}
use codexnet.Passive.Types.{Instant, PassiveFrame, PassiveObservation, Unicode}
use codexnet.Mdns.Name.{MdnsError, unexpected_protocol}
use codexnet.Mdns.Message.{Bounds, Record, parse_message}

-- _CacheEntry
pub record CacheEntry : Type 0 where
  pub observation : PassiveObservation Shown
  pub expires_at : Instant

pub record MdnsParser : Type 0 where
  pub bounds : Bounds
  pub cache : OrderedDict MdnsFields CacheEntry

-- MDNSParser(...); `none` stands for the ValueError
unfoldable pub new_mdns_parser : Bounds → Option MdnsParser
new_mdns_parser b =
    if ltb b.max_message_bytes 1
      || ltb b.max_questions 1
      || ltb b.max_records 1
      || ltb b.max_txt_bytes 1
      || ltb b.max_cache_entries 1
      || ltb b.max_ttl_seconds 1
    then none
    else some (record { bounds = b; cache = [] })

unfoldable pub cache_size : MdnsParser → ℕ
cache_size s = length s.cache

-- A cached entry whose time has come.
abbrev pub is_due : Instant → CacheEntry → Bool
is_due now entry = leb entry.expires_at now

-- The observation that discloses the expiry of an entry.
unfoldable pub expiry_of_entry : Instant → CacheEntry → PassiveObservation Shown
expiry_of_entry now entry =
    let shown = entry.observation.fields in
    record entry.observation {
      fields = record shown { action = expired };
      observed_at = some now;
      expires_at = some now;
    }

unfoldable pub expire_all : List CacheEntry → Instant → List (PassiveObservation Shown)
expire_all [] now = []
expire_all (entry ∷ entries) now = expiry_of_entry now entry ∷ expire_all entries now

-- expire, for an aware time
unfoldable pub expire_cache : MdnsParser → Instant → MdnsParser × List (PassiveObservation Shown)
expire_cache s now =
    (record s { cache = kept (is_due now) s.cache }, expire_all (removed (is_due now) s.cache) now)

abbrev pub entry_of : ℕ → Record → Instant → CacheEntry
entry_of max_ttl r at = record {
  observation = observation max_ttl r at;
  expires_at = expiry max_ttl r.ttl at;
}

-- The body of the loop over the records: a goodbye removes, an announcement writes.
unfoldable pub apply_record : Instant → Record → MdnsParser → MdnsParser
apply_record at r s =
    let identity = fields_of r.name r.value in
    if nat_beq r.ttl 0 then record s { cache = remove identity s.cache } else record s {
      cache =
          shrink s.bounds.max_cache_entries
            (set_last identity (entry_of s.bounds.max_ttl_seconds r at) s.cache);
    }

unfoldable pub apply_records :
    Instant → List Record → MdnsParser → MdnsParser × List (PassiveObservation Shown)
apply_records at [] s = (s, [])
apply_records at (r ∷ rs) s =
    let (s', shown) = apply_records at rs (apply_record at r s) in
    (s', observation s.bounds.max_ttl_seconds r at ∷ shown)

-- frame.protocol.casefold() in {"mdns", "dns-sd"}
unfoldable pub is_mdns : Text → Bool
is_mdns name = list_beq name (codes "mdns") || list_beq name (codes "dns-sd")

module _ (unicode : Unicode) (redact : Text → Text → Text) where
  -- MDNSParser.__call__: the due entries leave the cache before the message is parsed.
  unfoldable pub mdns_call :
      MdnsParser → PassiveFrame → MdnsParser × Result MdnsError (List (PassiveObservation Shown))
  mdns_call s frame =
      let (aged, gone) = expire_cache s frame.observed_at in
      let handled : MdnsParser × Result MdnsError (List (PassiveObservation Shown)) =
        elim (parse_message unicode redact s.bounds frame.payload) [
          | err e ↦ (aged, err e)
          | ok records ↦
              let (s', shown) = apply_records frame.observed_at records aged in
              (s', ok (gone ++ shown))
        ] in
      if not (is_mdns (unicode.casefold frame.protocol))
      then (s, err unexpected_protocol)
      else handled
