-- ===== src/Dhcp/Message/Accepted.antt =====
-- dhcp.py, `parse_dhcp`: what an accepted message says about its bytes.
use mathlib.Core.Option
use mathlib.Core.Path.{subst}
use codexnet.Prelude.{
  ℕ, ◌≤◌, ◌≡◌, refl, ap, ◌∙◌, ◌⊎◌, ◌↔◌, true, Option, none, some, List, [], ◌∷◌, arith, length,
  slice, byte_at, if◌then◌else◌,
}
use codexnet.Prelude.Keys.{nat_eq, list_beq, list_beq_iff}
use codexnet.Prelude.Result.{ok, >>=-eq-ok, ok-injective}
use codexnet.Prelude.Text.{Text, codes, be_value}
use codexnet.OrderedDict.{lookup}
use codexnet.Passive.Types.{PassiveFrame, PassiveObservation, Unicode}
use codexnet.Dhcp.Options.{Options, dhcp_fixed_bytes, options, fixed, seconds}
use codexnet.Dhcp.Message.{
  MessageType, message_type_of, is_server_message, DhcpFields, typed, checked_type, check_header,
  expiry_of, read_options, message_of, Readings, parse_dhcp, bootp_header_bytes,
  max_dhcp_frame_bytes, dhcp_magic_cookie,
}

-- A frame whose fixed header is that of a DHCP message.
pub record IsBootp (unicode : Unicode) (frame : PassiveFrame) : Type 0 where
  pub protocol : unicode.casefold frame.protocol ≡ codes "dhcp"
  pub long_enough : dhcp_fixed_bytes ≤ length frame.payload
  pub short_enough : length frame.payload ≤ max_dhcp_frame_bytes
  pub cookie : slice bootp_header_bytes dhcp_fixed_bytes frame.payload ≡ dhcp_magic_cookie
  pub operation : (byte_at frame.payload 0 ≡ 1) ⊎ (byte_at frame.payload 0 ≡ 2)
  pub hardware : (1 ≤ byte_at frame.payload 2) × (byte_at frame.payload 2 ≤ 16)

module _ (unicode : Unicode) (frame : PassiveFrame) where
  abbrev names :
      (list_beq (unicode.casefold frame.protocol) (codes "dhcp") ≡ true)
      ↔ (unicode.casefold frame.protocol ≡ codes "dhcp")
  names = list_beq_iff (unicode.casefold frame.protocol) (codes "dhcp")

  abbrev magic :
      (list_beq (slice bootp_header_bytes dhcp_fixed_bytes frame.payload) dhcp_magic_cookie ≡ true)
      ↔ (slice bootp_header_bytes dhcp_fixed_bytes frame.payload ≡ dhcp_magic_cookie)
  magic = list_beq_iff (slice bootp_header_bytes dhcp_fixed_bytes frame.payload) dhcp_magic_cookie

  check_header-IsBootp : check_header unicode frame ≡ ok tt → IsBootp unicode frame
  unfolding check_header
  check_header-IsBootp h = record {
    protocol = names.0 (ground arith);
    long_enough = ground arith;
    short_enough = ground arith;
    cookie = magic.0 (ground arith);
    operation = ground arith;
    hardware = ground arith;
  }

  IsBootp-check_header : IsBootp unicode frame → check_header unicode frame ≡ ok tt
  unfolding check_header
  IsBootp-check_header v = rw (names.1 v.protocol, magic.1 v.cookie) (ground arith)

-- A message as its option dictionary gives it: the type stands in option 53 and fits the BOOTP
-- operation, the lease time is the big-endian value of option 51, and only a granted lease expires.
pub record IsMessage (frame : PassiveFrame) (msg : PassiveObservation DhcpFields) : Type 0 where
  pub opts : Options
  pub option_list : options frame.payload ≡ ok opts
  pub type_byte : ℕ
  pub type_option : lookup 53 opts ≡ some (type_byte ∷ [])
  pub type_known : message_type_of type_byte ≡ some msg.fields.message_type
  pub direction :
      byte_at frame.payload 0 ≡ (if is_server_message msg.fields.message_type then 2 else 1)
  pub lease : msg.fields.lease_seconds ≡ Option.map be_value (lookup 51 opts)
  pub observed : msg.observed_at ≡ some frame.observed_at
  pub expiry :
      msg.expires_at ≡ expiry_of msg.fields.message_type msg.fields.lease_seconds frame.observed_at

fixed-eq-ok :
    (opts : Options) (code len : ℕ) (value : Option (List ℕ))
    → fixed opts code len ≡ ok value
    → (lookup code opts ≡ value) × ((raw : List ℕ) → value ≡ some raw → length raw ≡ len)
unfolding fixed
fixed-eq-ok opts code len value h = (ground arith, λ raw e. ground arith)

seconds-eq-ok :
    (opts : Options) (code : ℕ) (value : Option ℕ)
    → seconds opts code ≡ ok value
    → value ≡ Option.map be_value (lookup code opts)
unfolding seconds
seconds-eq-ok opts code value h =
    let (raw, found, h1) = >>=-eq-ok (fixed opts code 4) _ h in
    ground (arith, (fixed-eq-ok opts code 4 raw found).0)

singleton : (raw : List ℕ) → length raw ≡ 1 → raw ≡ byte_at raw 0 ∷ []
unfolding byte_at
singleton [] h = absurd (omega arith)
singleton (b ∷ []) h = refl
singleton (b ∷ c ∷ bs) h = absurd (omega arith)

checked_type_inv :
    (operation : ℕ) (opts : Options) (kind : MessageType)
    → checked_type operation opts ≡ ok kind
    → (b : ℕ) × (lookup 53 opts ≡ some (b ∷ []))
      × (message_type_of b ≡ some kind)
      × (operation ≡ (if is_server_message kind then 2 else 1))
unfolding checked_type typed
checked_type_inv operation opts kind h =
    let (value, found, h1) = >>=-eq-ok (fixed opts 53 1) _ h in
    let (same, size) = fixed-eq-ok opts 53 1 value found in from_value value same size h1
  where
    from_value :
        (value : Option (List ℕ))
        → lookup 53 opts ≡ value
        → ((raw : List ℕ) → value ≡ some raw → length raw ≡ 1)
        → typed operation value ≡ ok kind
        → (b : ℕ) × (lookup 53 opts ≡ some (b ∷ []))
          × (message_type_of b ≡ some kind)
          × (operation ≡ (if is_server_message kind then 2 else 1))
    from_value none same size h1 = cc
    from_value (some raw) same size h1 =
        (byte_at raw 0, same ∙ ap some (singleton raw (size raw refl)), ground arith, ground arith)

read_options-eq-ok :
    (unicode : Unicode) (redact : Text → Text) (operation : ℕ) (opts : Options) (r : Readings)
    → read_options unicode redact operation opts ≡ ok r
    → (checked_type operation opts ≡ ok r.type) × (seconds opts 51 ≡ ok r.lease)
unfolding read_options
read_options-eq-ok unicode redact operation opts r h = (ground arith, ground arith)

message_of-IsMessage :
    (frame : PassiveFrame) (opts : Options) (r : Readings)
    → options frame.payload ≡ ok opts
    → checked_type (byte_at frame.payload 0) opts ≡ ok r.type
    → seconds opts 51 ≡ ok r.lease
    → IsMessage frame (message_of frame opts r)
unfolding message_of
message_of-IsMessage frame opts r parsed checked timed =
    let (b, at53, known, way) = checked_type_inv (byte_at frame.payload 0) opts r.type checked in
    record {
      opts = opts;
      option_list = parsed;
      type_byte = b;
      type_option = at53;
      type_known = known;
      direction = way;
      lease = seconds-eq-ok opts 51 r.lease timed;
      observed = refl;
      expiry = refl;
    }

-- `parse_dhcp` accepts a frame only if its header is a BOOTP header with the DHCP cookie, its
-- options form an option list, and the message it returns is what the option dictionary says: the
-- type of option 53, in the direction of the BOOTP operation, the lease time of option 51 as a
-- big-endian number, and an expiry exactly for an offer or an acknowledgement with a lease time.
pub parse_dhcp_sound :
    (unicode : Unicode) (redact : Text → Text) (frame : PassiveFrame)
    (msg : PassiveObservation DhcpFields)
    → parse_dhcp unicode redact frame ≡ ok msg
    → IsBootp unicode frame × IsMessage frame msg
unfolding parse_dhcp
parse_dhcp_sound unicode redact frame msg h =
    let (_, header, h1) = >>=-eq-ok (check_header unicode frame) _ h in
    let (opts, parsed, h2) = >>=-eq-ok (options frame.payload) _ h1 in
    let (r, read, built) =
      >>=-eq-ok (read_options unicode redact (byte_at frame.payload 0) opts) _ h2 in
    let (checked, timed) =
      read_options-eq-ok unicode redact (byte_at frame.payload 0) opts r read in
    (
      check_header-IsBootp unicode frame header,
      subst (IsMessage frame) (ok-injective (message_of frame opts r) msg built)
          (message_of-IsMessage frame opts r parsed checked timed),
    )
