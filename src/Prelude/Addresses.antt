-- ===== src/Prelude/Addresses.antt =====
-- The standard library's reading of IPv4 addresses, and texts split at dots.
use codexnet.Prelude.{
  ℕ, ◌+◌, ◌*◌, ◌-◌, Bool, true, false, not, ◌||◌, ◌&&◌, List, [], ◌∷◌, length, leb, nat_beq, all,
  if◌then◌else◌,
}
use codexnet.Prelude.Text.{Text}

abbrev pub extend_parts : Bool → ℕ → List Text → List Text
extend_parts true c parts = [] ∷ parts
extend_parts false c [] = (c ∷ []) ∷ []
extend_parts false c (part ∷ parts) = (c ∷ part) ∷ parts

-- text.split(".")
unfoldable pub split_dots : Text → List Text
split_dots [] = [] ∷ []
split_dots (c ∷ cs) = extend_parts (nat_beq c b'.') c (split_dots cs)

unfoldable pub is_digit : ℕ → Bool
is_digit c = leb b'0' c && leb c b'9'

unfoldable pub decimal_from : ℕ → Text → ℕ
decimal_from acc [] = acc
decimal_from acc (c ∷ cs) = decimal_from (acc * 10 + (c - b'0')) cs

abbrev pub no_text : Text → Bool
no_text [] = true
no_text (c ∷ cs) = false

-- ipaddress: an octet has one to three digits, no leading zero, and is at most 255.
unfoldable pub is_octet : Text → Bool
is_octet [] = false
is_octet (c ∷ cs) =
    all is_digit (c ∷ cs)
    && leb (length (c ∷ cs)) 3
    && (not (nat_beq c b'0') || no_text cs)
    && leb (decimal_from 0 (c ∷ cs)) 255

-- ipaddress.IPv4Address(text): accepted texts are canonical, so `str` gives them back.
unfoldable pub is_ipv4_text : Text → Bool
is_ipv4_text s = let parts = split_dots s in nat_beq (length parts) 4 && all is_octet parts

-- text.replace(":", "").replace("-", "")
unfoldable pub without_separators : Text → Text
without_separators [] = []
without_separators (c ∷ cs) =
    let rest = without_separators cs in if nat_beq c b':' || nat_beq c b'-' then rest else c ∷ rest
