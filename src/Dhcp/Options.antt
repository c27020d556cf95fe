-- ===== src/Dhcp/Options.antt =====
-- dhcp.py: the option list of a message, and the readers of single options.
pub mod Encoding
use codexnet.Prelude.{
  ℕ, zero, suc, ◌%◌, true, false, not, ◌||◌, Option, none, some, List, [], ◌∷◌, take, drop, length,
  ltb, nat_beq, if◌then◌else◌,
}
use codexnet.Prelude.Keys.{nat_eq}
use codexnet.Prelude.Result.{Result, ok, err, ◌>>=◌}
use codexnet.Prelude.Text.{Text, be_value, ipv4_text, strip, strip_null}
use codexnet.OrderedDict.{OrderedDict, lookup, put}
use codexnet.Passive.Types.{Unicode}

-- The `PassiveParseError`s of the module, one constructor for each message. `out_of_fuel` is no
-- Python value: the loop of `options` raises it when its fuel is used up.
pub data DhcpError : Type 0 where
  wrong_protocol short_frame oversized_frame missing_cookie bad_header : DhcpError
  truncated_length truncated_value no_end_marker : DhcpError
  duplicate_option wrong_length not_addresses empty_text blank_text : ℕ → DhcpError
  bad_message_type conflicting_type : DhcpError
  out_of_fuel : DhcpError

abbrev pub Options : Type 0
Options = OrderedDict ℕ (List ℕ)

abbrev pub dhcp_fixed_bytes : ℕ
dhcp_fixed_bytes = 240

-- One option behind its code: the bytes that follow it and the dictionary with its value.
unfoldable pub next_option : ℕ → List ℕ → Options → Result DhcpError (List ℕ × Options)
next_option code [] result = err truncated_length
next_option code (len ∷ rest) result =
    if ltb (length rest) len then err truncated_value else elim (lookup code result) [
      | some v ↦ err (duplicate_option code)
      | none ↦ ok (drop len rest, put code (take len rest) result)
    ]

-- The `while` loop over `payload[offset:]`.
unfoldable pub options_loop : ℕ → List ℕ → Options → Result DhcpError Options
options_loop fuel [] result = err no_end_marker
options_loop zero (code ∷ rest) result = err out_of_fuel
options_loop (suc fuel) (code ∷ rest) result = elim (nat_beq code 0) [
  | true ↦ options_loop fuel rest result
  | false ↦ elim (nat_beq code 255) [
    | true ↦ ok result
    | false ↦ elim (next_option code rest result) [
      | ok (rest', result') ↦ options_loop fuel rest' result'
      | err e ↦ err e
    ]
  ]
]

-- Every round takes a byte at least, so as many rounds as there are bytes are enough.
unfoldable pub options : List ℕ → Result DhcpError Options
options payload = options_loop (length payload) (drop dhcp_fixed_bytes payload) []

unfoldable pub fixed : Options → ℕ → ℕ → Result DhcpError (Option (List ℕ))
fixed opts code len = elim (lookup code opts) [
  | none ↦ ok none
  | some value ↦ if nat_beq (length value) len then ok (some value) else err (wrong_length code)
]

unfoldable pub seconds : Options → ℕ → Result DhcpError (Option ℕ)
seconds opts code = do
  value ← fixed opts code 4
  ok (elim value [ none ↦ none | some raw ↦ some (be_value raw) ])

-- [_ipv4(value[offset : offset + 4]) for offset in range(0, len(value), 4)]
unfoldable pub address_chunks : List ℕ → List Text
address_chunks (a ∷ b ∷ c ∷ d ∷ rest) = ipv4_text (a ∷ b ∷ c ∷ d ∷ []) ∷ address_chunks rest
address_chunks _ = []

unfoldable pub address_list : Options → ℕ → Result DhcpError (List Text)
address_list opts code = elim (lookup code opts) [
  | none ↦ ok []
  | some value ↦
      if nat_beq (length value) 0 || not (nat_beq (length value % 4) 0)
      then err (not_addresses code)
      else ok (address_chunks value)
]

abbrev usable : ℕ → (Text → Text) → Text → Result DhcpError (Option Text)
usable code redact [] = err (blank_text code)
usable code redact (c ∷ cs) = ok (some (redact (c ∷ cs)))

-- The redactor is the caller's; so are the Unicode tables.
unfoldable pub option_text : Unicode → (Text → Text) → Options → ℕ → Result DhcpError (Option Text)
option_text unicode redact opts code = elim (lookup code opts) [
  | none ↦ ok none
  | some [] ↦ err (empty_text code)
  | some (b ∷ bs) ↦ usable code redact (strip_null (strip (unicode.decode_replace (b ∷ bs))))
]
