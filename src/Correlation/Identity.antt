-- ===== src/Correlation/Identity.antt =====
-- correlation.py: the kinds of evidence, their normalisation and the checked constructors.
use codexnet.Prelude.{
  List, ◌++◌, none, some, all, any, length, ltb, not, nat_beq, ◌+◌, ◌||◌, [], ◌&&◌, ◌∷◌, Option,
  if◌then◌else◌, leb, ℕ, Bool, true, false,
}
use codexnet.Prelude.Addresses.{split_dots, is_ipv4_text, without_separators, no_text}
use codexnet.Prelude.Text.{strip_right, is_space, strip, codes, Text}
use codexnet.Prelude.Result.{◌>>=◌, err, ok, Result}

-- The `NormalizationError`s, one constructor for each message, the `IndexError` of an empty list,
-- the `UnicodeEncodeError` of `str.encode`, and a loop out of fuel.
pub data CorrelationError : Type 0 where
  bad_text : Text → CorrelationError
  bad_mac bad_hostname bad_ipv4 : CorrelationError
  naive_timestamp bad_confidence bad_namespace : CorrelationError
  duplicate_id : Text → CorrelationError
  index_error not_encodable out_of_fuel : CorrelationError

pub data IdentifierKind : Type 0 where
  mac serial source_id hostname ipv4 : IdentifierKind

-- str.encode() succeeds unless the text holds a surrogate.
unfoldable pub is_encodable : Text → Bool
is_encodable s = all (λ c. ltb c 0xd800 || ltb 0xdfff c) s

-- kind.value
abbrev pub kind_value : IdentifierKind → Text
kind_value mac = codes "mac"
kind_value serial = codes "serial"
kind_value source_id = codes "source_id"
kind_value hostname = codes "hostname"
kind_value ipv4 = codes "ipv4"

-- kind in _STABLE_KINDS
abbrev pub is_stable_kind : IdentifierKind → Bool
is_stable_kind mac = true
is_stable_kind serial = true
is_stable_kind source_id = true
is_stable_kind hostname = false
is_stable_kind ipv4 = false

-- What the module takes from the interpreter: case folding, the IDNA codec (`none` where it
-- raises), the SHA-256 digest in hexadecimal, the order in
-- which a set gives its members, and confidences as multiples of one unit, with what
-- 1.0, 0.8 and 0.5 are. A confidence that is no number from 0 to 1 is one above `one`.
pub record Platform : Type 0 where
  pub casefold : Text → Text
  pub idna : Text → Option Text
  pub sha256_hex : Text → Text
  pub set_order : List Text → List Text
  pub one : ℕ
  pub merge_level : ℕ
  pub unknown_level : ℕ

-- A `datetime`: whether it has a time zone with an offset, and its `isoformat()`.
pub record Moment : Type 0 where
  pub is_aware : Bool
  pub isoformat : Text

unfoldable pub require_text : Text → Text → ℕ → Result CorrelationError Text
require_text value field maximum =
    let normalized = strip value in
    if no_text normalized || ltb maximum (length normalized) || any (λ c. nat_beq c 0) normalized
    then err (bad_text field)
    else ok normalized

unfoldable pub is_hex_digit : ℕ → Bool
is_hex_digit c =
    (leb b'0' c && leb c b'9') || (leb b'a' c && leb c b'f') || (leb b'A' c && leb c b'F')

-- str.lower of a hexadecimal digit
unfoldable pub lower_digit : ℕ → ℕ
lower_digit c = if leb b'A' c && leb c b'F' then c + 32 else c

-- ":".join(plain[index : index + 2].lower() for index in range(0, 12, 2))
unfoldable pub pair_digits : Text → Text
unfolding lower_digit
pair_digits [] = []
pair_digits (c ∷ []) = lower_digit c ∷ []
pair_digits (c ∷ d ∷ []) = lower_digit c ∷ lower_digit d ∷ []
pair_digits (c ∷ d ∷ x ∷ xs) = lower_digit c ∷ lower_digit d ∷ b':' ∷ pair_digits (x ∷ xs)

unfoldable pub normalize_mac : Text → Result CorrelationError Text
normalize_mac value =
    let plain = without_separators (strip value) in
    if nat_beq (length plain) 12 && all is_hex_digit plain
    then ok (pair_digits plain)
    else err bad_mac

unfoldable pub is_label_char : ℕ → Bool
is_label_char c = (leb b'a' c && leb c b'z') || (leb b'0' c && leb c b'9') || nat_beq c b'-'

abbrev first_is_dash : Text → Bool
first_is_dash [] = false
first_is_dash (c ∷ cs) = nat_beq c b'-'

unfoldable pub last_is_dash : Text → Bool
last_is_dash [] = false
last_is_dash (c ∷ []) = nat_beq c b'-'
last_is_dash (c ∷ d ∷ ds) = last_is_dash (d ∷ ds)

-- A label that the last check of `_normalize_hostname` refuses.
unfoldable pub is_bad_label : Text → Bool
unfolding is_label_char last_is_dash
is_bad_label label =
    no_text label
    || ltb 63 (length label)
    || first_is_dash label
    || last_is_dash label
    || not (all is_label_char label)

abbrev push_space : Bool → Text → Text
push_space true rest = 32 ∷ rest
push_space false rest = rest

-- The rest of the text, and whether the character before it was white space.
space_runs : Bool → Text → Text
space_runs inside [] = []
space_runs inside (c ∷ cs) =
    let within = space_runs true cs in
    let outside = space_runs false cs in
    if is_space c then push_space (not inside) within else c ∷ outside

-- re.sub(r"\s+", " ", text)
unfoldable pub join_spaces : Text → Text
unfolding space_runs
join_spaces = space_runs false

module _ (p : Platform) where
  unfoldable pub normalize_hostname : Text → Result CorrelationError Text
  normalize_hostname value = do
    text ← require_text value (codes "hostname") 253
    elim (p.idna (p.casefold (strip_right (λ c. nat_beq c b'.') text))) [
      | none ↦ err bad_hostname
      | some ascii_name ↦
          if any is_bad_label (split_dots ascii_name) then err bad_hostname else ok ascii_name
    ]

  -- `namespace or ""`
  abbrev or_empty : Option Text → Text
  or_empty none = []
  or_empty (some s) = s

  unfoldable pub normalize_identifier :
      IdentifierKind → Text → Option Text → Result CorrelationError Text
  normalize_identifier mac value namespace = normalize_mac value
  normalize_identifier ipv4 value namespace =
      let address = strip value in if is_ipv4_text address then ok address else err bad_ipv4
  normalize_identifier hostname value namespace = normalize_hostname value
  normalize_identifier serial value namespace = do
    text ← require_text value (codes "serial") 256
    ok (p.casefold (join_spaces text))
  normalize_identifier source_id value namespace = do
    scope ← require_text (or_empty namespace) (codes "source ID namespace") 128
    identifier ← require_text value (codes "source ID") 256
    ok (p.casefold scope ++ b':' ∷ p.casefold identifier)
