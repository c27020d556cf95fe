-- ===== src/Mdns/Cache/Kept.antt =====
-- mdns.py, `MDNSParser`: what the cache holds behind a frame.
use mathlib.Core.Path.{subst}
use codexnet.Prelude.{
  ℕ, ◌≤◌, ◌<◌, ◌≡◌, ◌∙◌, sym, ap, refl, Option, none, some, List, [], ◌∷◌, length, nat_beq, arith,
  if◌then◌else◌, inl, inr, Bool-cases,
}
use codexnet.Prelude.Keys.{◌==◌}
use codexnet.OrderedDict.{lookup, remove, set_last, Distinct}
use codexnet.OrderedDict.Lookup.{lookup-remove, lookup-set_last}
use codexnet.OrderedDict.Keys.{remove-Distinct, set_last-Distinct}
use codexnet.OrderedDict.Size.{length-remove-le}
use codexnet.OrderedDict.Shrink.{shrink, length-shrink, lookup_of_shrink, shrink-Distinct}
use codexnet.OrderedDict.Sweep.{kept_balance, kept-Distinct}
use codexnet.Passive.Types.{Instant}
use codexnet.Mdns.Message.{Bounds, Record}
use codexnet.Mdns.Fields.{MdnsFields, identity_eq, fields_of}
use codexnet.Mdns.Cache.{
  MdnsParser, CacheEntry, new_mdns_parser, is_due, expire_cache, entry_of, apply_record,
  apply_records,
}

pub record IsBounded (s : MdnsParser) : Type 0 where
  pub room : 0 < s.bounds.max_cache_entries
  pub bounded : length s.cache ≤ s.bounds.max_cache_entries
  pub distinct : Distinct s.cache

pub new_mdns_parser-IsBounded :
    (b : Bounds) (s : MdnsParser) → new_mdns_parser b ≡ some s → IsBounded s
unfolding new_mdns_parser
new_mdns_parser-IsBounded b s h =
    let empty : s.cache ≡ [] = ground arith in
    record {
      room = ground arith;
      bounded = ground arith;
      distinct = subst (λ d. Distinct d) (sym empty) tt;
    }

pub expire_cache-IsBounded :
    (s : MdnsParser) (now : Instant) → IsBounded s → IsBounded (expire_cache s now).0
unfolding expire_cache
expire_cache-IsBounded s now v = record {
  room = v.room;
  bounded = omega (arith, kept_balance (is_due now) s.cache, v.bounded);
  distinct = kept-Distinct (is_due now) s.cache v.distinct;
}

apply_record-IsBounded :
    (at : Instant) (r : Record) (s : MdnsParser) → IsBounded s → IsBounded (apply_record at r s)
apply_record-IsBounded at r s v =
    let k = fields_of r.name r.value in
    elim (Bool-cases (nat_beq r.ttl 0)) [
      | inl bye ↦
          unfold apply_record in
          rw bye (record {
            room = v.room;
            bounded = omega (arith, length-remove-le k s.cache, v.bounded);
            distinct = remove-Distinct k s.cache v.distinct;
          })
      | inr live ↦
          let written = set_last k (entry_of s.bounds.max_ttl_seconds r at) s.cache in
          unfold apply_record in
          rw live (record {
            room = v.room;
            bounded = length-shrink s.bounds.max_cache_entries written;
            distinct =
                shrink-Distinct s.bounds.max_cache_entries written
                  (set_last-Distinct k (entry_of s.bounds.max_ttl_seconds r at) s.cache v.distinct);
          })
    ]

pub apply_records-IsBounded :
    (at : Instant) (rs : List Record) (s : MdnsParser)
    → IsBounded s
    → IsBounded (apply_records at rs s).0
unfolding apply_records
apply_records-IsBounded at [] s v = v
apply_records-IsBounded at (r ∷ rs) s v =
    apply_records-IsBounded at rs (apply_record at r s) (apply_record-IsBounded at r s v)

apply_record-bounds :
    (at : Instant) (r : Record) (s : MdnsParser) → (apply_record at r s).bounds ≡ s.bounds
unfolding apply_record
apply_record-bounds at r s = elim (Bool-cases (nat_beq r.ttl 0)) [
  | inl bye ↦ rw bye refl
  | inr live ↦ rw live refl
]

-- What a record says of an identity: its entry, nothing for a goodbye, or what was said before.
unfoldable pub said : ℕ → Instant → MdnsFields → Record → Option CacheEntry → Option CacheEntry
said max_ttl at k r before =
    if fields_of r.name r.value == k
    then (if nat_beq r.ttl 0 then none else some (entry_of max_ttl r at))
    else before

-- What the records of a message say of an identity, the last of them prevailing.
unfoldable pub announced :
    ℕ → Instant → MdnsFields → List Record → Option CacheEntry → Option CacheEntry
announced max_ttl at k [] before = before
announced max_ttl at k (r ∷ rs) before = announced max_ttl at k rs (said max_ttl at k r before)

abbrev pub Covers : MdnsFields → MdnsParser → Option CacheEntry → Type 0
Covers k s before = (entry : CacheEntry) → lookup k s.cache ≡ some entry → before ≡ some entry

lookup-apply_record :
    (at : Instant) (k : MdnsFields) (r : Record) (s : MdnsParser) (entry : CacheEntry)
    → IsBounded s
    → lookup k (apply_record at r s).cache ≡ some entry
    → said s.bounds.max_ttl_seconds at k r (lookup k s.cache) ≡ some entry
unfolding said
lookup-apply_record at k r s entry v h =
    let j = fields_of r.name r.value in
    let made = entry_of s.bounds.max_ttl_seconds r at in
    elim (Bool-cases (nat_beq r.ttl 0)) [
      | inl bye ↦
          let cut : (apply_record at r s).cache ≡ remove j s.cache =
            unfold apply_record in rw bye refl in
          rw bye (sym (lookup-remove j k s.cache) ∙ ap (λ d. lookup k d) (sym cut) ∙ h)
      | inr live ↦
          let n = s.bounds.max_cache_entries in
          let put_last : (apply_record at r s).cache ≡ shrink n (set_last j made s.cache) =
            unfold apply_record in rw live refl in
          rw live (
            sym (lookup-set_last j k made s.cache)
            ∙ lookup_of_shrink n k entry (set_last j made s.cache)
                (set_last-Distinct j made s.cache v.distinct)
                (ap (λ d. lookup k d) (sym put_last) ∙ h))
    ]

said-Covers :
    (max_ttl : ℕ) (at : Instant) (k : MdnsFields) (r : Record) (a b : Option CacheEntry)
    (entry : CacheEntry)
    → ((x : CacheEntry) → a ≡ some x → b ≡ some x)
    → said max_ttl at k r a ≡ some entry
    → said max_ttl at k r b ≡ some entry
unfolding said
said-Covers max_ttl at k r a b entry covers h = elim (Bool-cases (fields_of r.name r.value == k)) [
  | inl same ↦ ground arith
  | inr other ↦ ground (arith, covers entry)
]

pub apply_records-Covers :
    (at : Instant) (k : MdnsFields) (rs : List Record) (s : MdnsParser) (before : Option CacheEntry)
    → IsBounded s
    → Covers k s before
    → Covers k (apply_records at rs s).0 (announced s.bounds.max_ttl_seconds at k rs before)
unfolding apply_records announced
apply_records-Covers at k [] s before v covers = covers
apply_records-Covers at k (r ∷ rs) s before v covers =
    let s' = apply_record at r s in
    let said' = said s.bounds.max_ttl_seconds at k r before in
    let same = ap (λ (b : Bounds). b.max_ttl_seconds) (apply_record-bounds at r s) in
    subst (λ m. Covers k (apply_records at rs s').0 (announced m at k rs said')) same
      (apply_records-Covers at k rs s' said' (apply_record-IsBounded at r s v) (λ entry h.
        said-Covers s.bounds.max_ttl_seconds at k r (lookup k s.cache) before entry covers
          (lookup-apply_record at k r s entry v h)))
