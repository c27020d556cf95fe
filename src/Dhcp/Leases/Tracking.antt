-- ===== src/Dhcp/Leases/Tracking.antt =====
-- dhcp.py, `DhcpParser`: the bound on the leases, what is reported and what is remembered.
use codexnet.Prelude.{
  ◌∙◌, ap, refl, Bool-cases, ◌⊎◌, ℕ, ◌≤◌, ◌<◌, ◌≡◌, ◌≢◌, sym, inl, inr, some, [], ◌∷◌, arith,
  length, Option-cases,
}
use mathlib.Core.Path.{subst}
use codexnet.Prelude.Keys.{◌==◌, list_eq, nat_eq, list_beq_iff}
use codexnet.Prelude.Result.{ok, err, Result-cases}
use codexnet.Prelude.Text.{Text}
use codexnet.OrderedDict.{lookup, set_last, Distinct}
use codexnet.OrderedDict.Lookup.{lookup-set_last}
use codexnet.OrderedDict.Keys.{set_last-Distinct, trim-Distinct}
use codexnet.OrderedDict.Size.{
  length-set_last-le, length-trim-le, lookup-trim-set_last, lookup_of_trim,
}
use codexnet.Passive.Types.{PassiveFrame, PassiveObservation, Unicode}
use codexnet.Dhcp.Options.{DhcpError}
use codexnet.Dhcp.Message.{DhcpFields, parse_dhcp}
use codexnet.Dhcp.Leases.{
  ReuseFields, reuse, message, reuse_of, reuse_report, DhcpParser, granted, remember, track, call,
  new_parser,
}

pub record IsValid (p : DhcpParser) : Type 0 where
  pub positive : 0 < p.max_tracked_leases
  pub bounded : length p.leases ≤ p.max_tracked_leases
  pub distinct : Distinct p.leases

pub new_parser-IsValid : (n : ℕ) (p : DhcpParser) → new_parser n ≡ some p → IsValid p
unfolding new_parser
new_parser-IsValid n p h =
    let empty : p.leases ≡ [] = ground arith in
    record {
      positive = ground arith;
      bounded = ground arith;
      distinct = subst Distinct (sym empty) tt;
    }

remember-IsValid : (p : DhcpParser) (a c : Text) → IsValid p → IsValid (remember p a c)
unfolding remember
remember-IsValid p a c v = record {
  positive = v.positive;
  bounded =
      length-trim-le p.max_tracked_leases (set_last a c p.leases)
        (omega (arith, length-set_last-le a c p.leases));
  distinct =
      trim-Distinct p.max_tracked_leases (set_last a c p.leases)
        (set_last-Distinct a c p.leases v.distinct);
}

pub track-IsValid :
    (p : DhcpParser) (msg : PassiveObservation DhcpFields) → IsValid p → IsValid (track p msg).0
unfolding track
track-IsValid p msg v = elim (Option-cases (granted msg.fields)) [
  | inl early ↦ rw (early, track) v
  | inr ((a, c), lease) ↦ rw (lease, track) (remember-IsValid p a c v)
]

module _ (unicode : Unicode) (redact : Text → Text) (p : DhcpParser) (frame : PassiveFrame) where
  pub call-parsed :
      (msg : PassiveObservation DhcpFields)
      → parse_dhcp unicode redact frame ≡ ok msg
      → (call unicode redact p frame).0 ≡ (track p msg).0
  unfolding call
  call-parsed msg h = rw (h, call)

  pub call-failed :
      (e : DhcpError)
      → parse_dhcp unicode redact frame ≡ err e
      → (call unicode redact p frame).0 ≡ p
  unfolding call
  call-failed e h = rw (h, call)

  -- Whatever the frame holds, a parser with a positive capacity keeps at most that many leases, one
  -- for each address.
  pub call-IsValid : IsValid p → IsValid (call unicode redact p frame).0
  call-IsValid v = elim (Result-cases (parse_dhcp unicode redact frame)) [
    | inl (msg, parsed) ↦ rw (call-parsed msg parsed) (track-IsValid p msg v)
    | inr (e, failed) ↦ rw (call-failed e failed) v
  ]

-- The write behind a granted lease: the new client is tracked under its address, and every other
-- address that is still tracked has its old client.
pub lookup-remember_self :
    (p : DhcpParser) (a c : Text) → IsValid p → lookup a (remember p a c).leases ≡ some c
unfolding remember
lookup-remember_self p a c v = lookup-trim-set_last p.max_tracked_leases a c p.leases v.positive

pub lookup-remember_ne :
    (p : DhcpParser) (a c j w : Text)
    → IsValid p
    → a ≢ j
    → lookup j (remember p a c).leases ≡ some w
    → lookup j p.leases ≡ some w
unfolding remember
lookup-remember_ne p a c j w v ne h =
    let before =
      lookup_of_trim p.max_tracked_leases j w (set_last a c p.leases)
        (set_last-Distinct a c p.leases v.distinct) h in
    ground (arith, lookup-set_last a j c p.leases, list_beq_iff a j, before, ne)

-- What a granted lease yields: the message alone, if the address was not tracked or tracked for the
-- same client, or else also one report that names the address and both clients.
pub record Reports (p : DhcpParser) (msg : PassiveObservation DhcpFields) (a c : Text)
    (previous : Text) : Type 0 where
  pub tracked : lookup a p.leases ≡ some previous
  pub differs : previous ≢ c
  pub report : PassiveObservation ReuseFields
  pub events : (track p msg).1 ≡ message msg ∷ reuse report ∷ []
  pub address : report.fields.address ≡ a
  pub before : report.fields.previous_client ≡ previous
  pub now : report.fields.current_client ≡ c

reuse_of_other :
    (msg : PassiveObservation DhcpFields) (a c previous : Text)
    → previous ≢ c
    → (r : PassiveObservation ReuseFields) × (reuse_of msg a c (some previous) ≡ reuse r ∷ [])
      × (r.fields.address ≡ a)
      × (r.fields.previous_client ≡ previous)
      × (r.fields.current_client ≡ c)
unfolding reuse_of reuse_report
reuse_of_other msg a c previous ne = elim (Bool-cases (previous == c)) [
  | inl same ↦ absurd (ne ((list_beq_iff previous c).0 same))
  | inr other ↦ (reuse_report msg a c previous, rw other, refl, refl, refl)
]

reuse_of_same :
    (msg : PassiveObservation DhcpFields) (a c previous : Text)
    → previous ≡ c
    → reuse_of msg a c (some previous) ≡ []
unfolding reuse_of reuse_report
reuse_of_same msg a c previous same = rw ((list_beq_iff previous c).1 same)

track-granted :
    (p : DhcpParser) (msg : PassiveObservation DhcpFields) (a c : Text)
    → granted msg.fields ≡ some (a, c)
    → (track p msg).1 ≡ message msg ∷ reuse_of msg a c (lookup a p.leases)
unfolding track
track-granted p msg a c h = rw (h, track)

-- A granted lease yields the message, and a reuse report behind it exactly if its address was
-- tracked for another client: the report names the address, the previous and the current client.
pub reuse_exact :
    (p : DhcpParser) (msg : PassiveObservation DhcpFields) (a c : Text)
    → granted msg.fields ≡ some (a, c)
    → (((track p msg).1 ≡ message msg ∷ [])
        × ((previous : Text) → lookup a p.leases ≡ some previous → previous ≡ c))
      ⊎ ((previous : Text) × Reports p msg a c previous)
reuse_exact p msg a c h = elim (Option-cases (lookup a p.leases)) [
  | inl untracked ↦
      inl
        (track-granted p msg a c h ∙ rw untracked (unfold reuse_of in refl), λ previous tracked. cc)
  | inr (previous, tracked) ↦ elim (Bool-cases (previous == c)) [
    | inl same ↦
        let e = (list_beq_iff previous c).0 same in
        inl (
          track-granted p msg a c h
              ∙ ap (λ o. message msg ∷ reuse_of msg a c o) tracked
              ∙ ap (λ l. message msg ∷ l) (reuse_of_same msg a c previous e),
          λ other tracked'. cc,
        )
    | inr other ↦
        let ne : previous ≢ c = λ e. ground (arith, list_beq_iff previous c) in
        let (r, only, at, before, now) = reuse_of_other msg a c previous ne in
        inr (
          previous,
          record {
            tracked = tracked;
            differs = ne;
            report = r;
            events =
                track-granted p msg a c h
                ∙ ap (λ o. message msg ∷ reuse_of msg a c o) tracked
                ∙ ap (λ l. message msg ∷ l) only;
            address = at;
            before = before;
            now = now;
          },
        )
  ]
]
