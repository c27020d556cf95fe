-- ===== src/Dhcp/Leases/History.antt =====
-- dhcp.py, `DhcpParser`: the tracked clients against the messages of a whole run.
use codexnet.Prelude.{
  ℕ, ◌≡◌, ◌∙◌, sym, ap, inl, inr, Option, none, some, List, [], ◌∷◌, arith, Option-cases,
  Bool-cases, if◌then◌else◌,
}
use mathlib.Core.Path.{subst, subst₂}
use codexnet.Prelude.Keys.{list_eq, nat_eq, ◌==◌, list_beq_iff}
use codexnet.Prelude.Result.{Result, ok, err, Result-cases}
use codexnet.Prelude.Text.{Text}
use codexnet.OrderedDict.{lookup}
use codexnet.Passive.Types.{PassiveFrame, PassiveObservation, Unicode}
use codexnet.Dhcp.Message.{DhcpFields, parse_dhcp}
use codexnet.Dhcp.Options.{DhcpError}
use codexnet.Dhcp.Leases.{DhcpParser, granted, remember, track, call, new_parser}
use codexnet.Dhcp.Leases.Tracking.{
  IsValid, track-IsValid, call-parsed, call-failed, lookup-remember_self, lookup-remember_ne,
  new_parser-IsValid,
}

-- The client that a message granted the address to, or else the one before.
unfoldable pub grant_or : Text → Option (Text × Text) → Option Text → Option Text
grant_or address none before = before
grant_or address (some (a, c)) before = if a == address then some c else before

-- The client of the last lease that the messages granted for the address, or the one before them.
unfoldable pub latest : Text → List (PassiveObservation DhcpFields) → Option Text → Option Text
latest address [] before = before
latest address (msg ∷ msgs) before =
    latest address msgs (grant_or address (granted msg.fields) before)

unfoldable pub with_message :
    Result DhcpError (PassiveObservation DhcpFields)
    → List (PassiveObservation DhcpFields)
    → List (PassiveObservation DhcpFields)
with_message (err e) rest = rest
with_message (ok msg) rest = msg ∷ rest

module _ (unicode : Unicode) (redact : Text → Text) where
  -- The parser behind a run of frames.
  unfoldable pub run_frames : DhcpParser → List PassiveFrame → DhcpParser
  run_frames p [] = p
  run_frames p (frame ∷ frames) = run_frames (call unicode redact p frame).0 frames

  -- The messages of the frames that parse.
  unfoldable pub parsed_messages : List PassiveFrame → List (PassiveObservation DhcpFields)
  parsed_messages [] = []
  parsed_messages (frame ∷ frames) =
      with_message (parse_dhcp unicode redact frame) (parsed_messages frames)

abbrev Covers : Text → DhcpParser → Option Text → Type 0
Covers a p before = (c : Text) → lookup a p.leases ≡ some c → before ≡ some c

remember-Covers :
    (p : DhcpParser) (a x y : Text) (before : Option Text)
    → IsValid p
    → Covers a p before
    → Covers a (remember p x y) (if x == a then some y else before)
remember-Covers p a x y before v covers c h = elim (Bool-cases (x == a)) [
  | inl same ↦
      let e = (list_beq_iff x a).0 same in
      let now = lookup-remember_self p x y v in
      rw same (sym now ∙ subst (λ t. lookup t (remember p x y).leases ≡ some c) (sym e) h)
  | inr other ↦
      rw other (covers c (lookup-remember_ne p x y a c v (λ e. ground (arith, list_beq_iff x a)) h))
]

track-Covers :
    (p : DhcpParser) (a : Text) (msg : PassiveObservation DhcpFields) (before : Option Text)
    → IsValid p
    → Covers a p before
    → Covers a (track p msg).0 (grant_or a (granted msg.fields) before)
unfolding track grant_or
track-Covers p a msg before v covers = elim (Option-cases (granted msg.fields)) [
  | inl early ↦ rw (early, track) covers
  | inr ((x, y), lease) ↦ rw (lease, track) (remember-Covers p a x y before v covers)
]

Covers-new : (n : ℕ) (p : DhcpParser) (a : Text) → new_parser n ≡ some p → Covers a p none
unfolding new_parser lookup
Covers-new n p a new c h =
    let empty : p.leases ≡ [] = ground arith in ground (arith, ap (λ l. lookup a l) empty)

module _ (unicode : Unicode) (redact : Text → Text) where
  run_frames-Covers :
      (p : DhcpParser) (a : Text) (frames : List PassiveFrame) (before : Option Text)
      → IsValid p
      → Covers a p before
      → Covers a
          (run_frames unicode redact p frames)
          (latest a (parsed_messages unicode redact frames) before)
  unfolding run_frames parsed_messages latest with_message
  run_frames-Covers p a [] before v covers = covers
  run_frames-Covers p a (frame ∷ frames) before v covers =
      let rest = parsed_messages unicode redact frames in
      elim (Result-cases (parse_dhcp unicode redact frame)) [
        | inr (e, failed) ↦
            subst₂ (λ q ms. Covers a (run_frames unicode redact q frames) (latest a ms before))
              (sym (call-failed unicode redact p frame e failed))
              (sym (ap (λ r. with_message r rest) failed))
              (run_frames-Covers p a frames before v covers)
        | inl (msg, parsed) ↦
            subst₂ (λ q ms. Covers a (run_frames unicode redact q frames) (latest a ms before))
              (sym (call-parsed unicode redact p frame msg parsed))
              (sym (ap (λ r. with_message r rest) parsed))
              (run_frames-Covers (track p msg).0 a frames (grant_or a (granted msg.fields) before)
                (track-IsValid p msg v) (track-Covers p a msg before v covers))
      ]

  -- A parser that starts with no leases tracks, behind any run of frames, an address only for the
  -- client that the messages among them granted it last.
  pub tracked-eq-latest :
      (n : ℕ) (p : DhcpParser) (frames : List PassiveFrame) (a c : Text)
      → new_parser n ≡ some p
      → lookup a (run_frames unicode redact p frames).leases ≡ some c
      → latest a (parsed_messages unicode redact frames) none ≡ some c
  tracked-eq-latest n p frames a c new =
      run_frames-Covers p a frames none (new_parser-IsValid n p new) (Covers-new n p a new) c
