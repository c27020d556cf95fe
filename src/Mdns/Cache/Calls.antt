-- ===== src/Mdns/Cache/Calls.antt =====
-- mdns.py, `MDNSParser.__call__` and `expire`: one frame after another.
use mathlib.Core.Path.{subst}
use codexnet.Mdns.Cache.{
  Text, MdnsParser, CacheEntry, is_due, expire_all, expire_cache, apply_records, is_mdns, mdns_call,
}
use codexnet.Prelude.Text.{Text}
use codexnet.Prelude.{
  ◌+◌, ◌≤◌, ◌<◌, ◌≡◌, ◌↔◌, sym, ap, refl, true, false, none, some, List, [], ◌∷◌, length, arith,
  inl, inr, Bool-cases, Option-cases,
}
use codexnet.Prelude.Result.{Result, ok, err, Result-cases}
use codexnet.OrderedDict.{lookup}
use codexnet.OrderedDict.Sweep.{kept_balance, lookup-kept_iff, removed}
use codexnet.Passive.Types.{Instant, PassiveFrame, PassiveObservation, Unicode}
use codexnet.Mdns.Name.{MdnsError}
use codexnet.Mdns.Message.{Record, parse_message}
use codexnet.Mdns.Fields.{MdnsFields, identity_eq, Shown}
use codexnet.Mdns.Cache.Kept.{
  IsBounded, expire_cache-IsBounded, apply_records-IsBounded, announced, apply_records-Covers,
}

length-expire_all :
    (entries : List CacheEntry) (now : Instant) → length (expire_all entries now) ≡ length entries
unfolding expire_all
length-expire_all [] now = refl
length-expire_all (e ∷ entries) now = omega (arith, length-expire_all entries now)

-- Aging a cache within its bounds keeps an entry exactly if its time has not come, and discloses
-- one expiry for each entry that leaves.
pub expire_cache_exact :
    (s : MdnsParser) (now : Instant) (k : MdnsFields) (entry : CacheEntry)
    → IsBounded s
    → ((lookup k (expire_cache s now).0.cache ≡ some entry)
        ↔ ((lookup k s.cache ≡ some entry) × (now < entry.expires_at)))
      × (length (expire_cache s now).0.cache + length (expire_cache s now).1 ≡ length s.cache)
unfolding expire_cache
expire_cache_exact s now k entry v =
    let iff = lookup-kept_iff (is_due now) k entry s.cache v.distinct in
    (
      (λ h. ((iff.0 h).0, ground (arith, (iff.0 h).1)), λ (hit, lt). iff.1 (hit, ground arith)),
      omega (
        arith,
        kept_balance (is_due now) s.cache,
        length-expire_all (removed (is_due now) s.cache) now,
      ),
    )

due-absent :
    (s : MdnsParser) (now : Instant) (k : MdnsFields) (entry : CacheEntry)
    → IsBounded s
    → lookup k s.cache ≡ some entry
    → entry.expires_at ≤ now
    → lookup k (expire_cache s now).0.cache ≡ none
due-absent s now k entry v hit due = elim (Option-cases (lookup k (expire_cache s now).0.cache)) [
  | inl gone ↦ gone
  | inr (other, there) ↦
      let (was, lt) = (expire_cache_exact s now k other v).0.0 there in
      let same : other ≡ entry = cc (was, hit) in
      absurd (omega (arith, due, lt, ap (λ (x : CacheEntry). x.expires_at) same))
]

module _ (unicode : Unicode) (redact : Text → Text → Text) (s : MdnsParser)
    (frame : PassiveFrame) where
  call-refused :
      is_mdns (unicode.casefold frame.protocol) ≡ false → (mdns_call unicode redact s frame).0 ≡ s
  unfolding mdns_call
  call-refused other = rw (other, mdns_call) refl

  call-failed :
      (e : MdnsError)
      → is_mdns (unicode.casefold frame.protocol) ≡ true
      → parse_message unicode redact s.bounds frame.payload ≡ err e
      → mdns_call unicode redact s frame ≡ ((expire_cache s frame.observed_at).0, err e)
  unfolding mdns_call
  call-failed e mdns failed = rw (mdns, failed, mdns_call) refl

  call-parsed :
      (records : List Record)
      → is_mdns (unicode.casefold frame.protocol) ≡ true
      → parse_message unicode redact s.bounds frame.payload ≡ ok records
      → (mdns_call unicode redact s frame).0
        ≡ (apply_records frame.observed_at records (expire_cache s frame.observed_at).0).0
  unfolding mdns_call
  call-parsed records mdns parsed = rw (mdns, parsed, mdns_call) refl

  -- Whatever the frame holds, a cache within its bound stays there, with one entry for each
  -- identity.
  pub mdns_call-IsBounded : IsBounded s → IsBounded (mdns_call unicode redact s frame).0
  mdns_call-IsBounded v =
      let at = frame.observed_at in
      let aged = expire_cache-IsBounded s at v in
      elim (Bool-cases (is_mdns (unicode.casefold frame.protocol))) [
        | inr other ↦ subst IsBounded (sym (call-refused other)) v
        | inl mdns ↦ elim (Result-cases (parse_message unicode redact s.bounds frame.payload)) [
          | inr (e, failed) ↦
              subst IsBounded
                (sym (
                  ap (λ (p : MdnsParser × Result MdnsError (List (PassiveObservation Shown))). p.0)
                    (call-failed e mdns failed)))
                aged
          | inl (records, parsed) ↦
              subst IsBounded (sym (call-parsed records mdns parsed))
                (apply_records-IsBounded at records (expire_cache s at).0 aged)
        ]
      ]

  -- Behind a frame of the protocol whose message parses, a cache within its bounds holds an
  -- identity only with what the message announced last for it, or, if the message names it in no
  -- record, with the entry that aging left; an identity whose last record is a goodbye is not
  -- cached.
  pub mdns_call_tracks :
      (k : MdnsFields) (records : List Record) (entry : CacheEntry)
      → IsBounded s
      → is_mdns (unicode.casefold frame.protocol) ≡ true
      → parse_message unicode redact s.bounds frame.payload ≡ ok records
      → lookup k (mdns_call unicode redact s frame).0.cache ≡ some entry
      → announced s.bounds.max_ttl_seconds frame.observed_at k records
          (lookup k (expire_cache s frame.observed_at).0.cache)
        ≡ some entry
  unfolding expire_cache
  mdns_call_tracks k records entry v mdns parsed h =
      let at = frame.observed_at in
      let aged = (expire_cache s at).0 in
      apply_records-Covers at k records aged (lookup k aged.cache) (expire_cache-IsBounded s at v)
        (λ x hit. hit) entry
        (subst (λ (t : MdnsParser). lookup k t.cache ≡ some entry) (call-parsed records mdns parsed)
          h)

  -- A frame of the protocol that does not parse still ages a cache within its bounds: an entry
  -- whose time has come is gone behind it, and the call gives the parse error, with no observation
  -- that discloses the expiry.
  pub mdns_call_forgets :
      (k : MdnsFields) (entry : CacheEntry) (e : MdnsError)
      → IsBounded s
      → is_mdns (unicode.casefold frame.protocol) ≡ true
      → parse_message unicode redact s.bounds frame.payload ≡ err e
      → lookup k s.cache ≡ some entry
      → entry.expires_at ≤ frame.observed_at
      → ((mdns_call unicode redact s frame).1 ≡ err e)
        × (lookup k (mdns_call unicode redact s frame).0.cache ≡ none)
  mdns_call_forgets k entry e v mdns failed hit due =
      rw (call-failed e mdns failed) (refl, due-absent s frame.observed_at k entry v hit due)
