-- ===== src/Prelude/Text.antt =====
-- Python text as a list of code points, and the standard library's ways to write bytes as text.
use Prim.Native.Char.{code}
use codexnet.Prelude.{
  ℕ, ◌+◌, ◌*◌, ◌/◌, ◌%◌, Bool, ◌&&◌, ◌||◌, String, Option, none, some, List, [], ◌∷◌, ◌++◌, ltb,
  leb, nat_beq, if◌then◌else◌,
}

abbrev pub Text : Type 0
Text = List ℕ

-- The code points of a literal.
abbrev pub codes : String → Text
codes String.[] = []
codes (String.◌∷◌ c s) = code c ∷ codes s

-- The decimal digits of an octet.
unfoldable pub octet_text : ℕ → Text
octet_text n =
    if ltb n 10
    then (48 + n) ∷ []
    else if ltb n 100
    then (48 + n / 10) ∷ (48 + n % 10) ∷ []
    else (48 + n / 100) ∷ (48 + n / 10 % 10) ∷ (48 + n % 10) ∷ []

-- One digit of `bytes.hex()` and of the format `02x`.
unfoldable pub hex_digit : ℕ → ℕ
hex_digit d = if ltb d 10 then 48 + d else 87 + d

-- raw.hex()
unfoldable pub hex_text : List ℕ → Text
unfolding hex_digit
hex_text [] = []
hex_text (b ∷ bs) = hex_digit (b / 16) ∷ hex_digit (b % 16) ∷ hex_text bs

-- ":".join(f"{octet:02x}" for octet in raw)
unfoldable pub mac_text : List ℕ → Text
unfolding hex_digit
mac_text [] = []
mac_text (b ∷ []) = hex_digit (b / 16) ∷ hex_digit (b % 16) ∷ []
mac_text (b ∷ c ∷ bs) = hex_digit (b / 16) ∷ hex_digit (b % 16) ∷ b':' ∷ mac_text (c ∷ bs)

-- str(ipaddress.IPv4Address(raw)) of four bytes: the octets in decimal, joined by dots.
unfoldable pub ipv4_text : List ℕ → Text
unfolding octet_text
ipv4_text [] = []
ipv4_text (b ∷ []) = octet_text b
ipv4_text (b ∷ c ∷ bs) = octet_text b ++ b'.' ∷ ipv4_text (c ∷ bs)

be_from : ℕ → List ℕ → ℕ
be_from acc [] = acc
be_from acc (b ∷ bs) = be_from (acc * 256 + b) bs

-- int.from_bytes(raw, "big"), as `struct.unpack` reads `!H` and `!I`
unfoldable pub be_value : List ℕ → ℕ
unfolding be_from
be_value = be_from 0

-- str.isspace of one code point
unfoldable pub is_space : ℕ → Bool
is_space c =
    (leb 9 c && leb c 13)
    || (leb 28 c && leb c 32)
    || nat_beq c 133
    || nat_beq c 160
    || nat_beq c 5760
    || (leb 8192 c && leb c 8202)
    || nat_beq c 8232
    || nat_beq c 8233
    || nat_beq c 8239
    || nat_beq c 8287
    || nat_beq c 12288

-- Drops what satisfies the test from the left.
unfoldable pub strip_left : (ℕ → Bool) → Text → Text
strip_left test [] = []
strip_left test (c ∷ cs) = let rest = strip_left test cs in if test c then rest else c ∷ cs

abbrev keep_left : (ℕ → Bool) → ℕ → Text → Text
keep_left test c [] = if test c then [] else c ∷ []
keep_left test c (d ∷ ds) = c ∷ d ∷ ds

-- Drops what satisfies the test from the right: an empty rest tells that all of it was dropped.
unfoldable pub strip_right : (ℕ → Bool) → Text → Text
strip_right test [] = []
strip_right test (c ∷ cs) = keep_left test c (strip_right test cs)

-- text.strip()
unfoldable pub strip : Text → Text
unfolding is_space strip_left strip_right
strip s = strip_right is_space (strip_left is_space s)

-- text.strip("\x00")
unfoldable pub strip_null : Text → Text
unfolding strip_left strip_right
strip_null s = strip_right (λ c. nat_beq c 0) (strip_left (λ c. nat_beq c 0) s)

-- Python's truth of an optional text: `None` and the empty text are false.
abbrev pub truthy : Option Text → Option Text
truthy none = none
truthy (some []) = none
truthy (some (c ∷ cs)) = some (c ∷ cs)
