-- ===== src/LinkLayer/Tlvs/Encoding.antt =====
-- link_layer.py, `_lldp_tlvs` and `_cdp_tlvs`: what is written as elements is read back.
use codexnet.LinkLayer.Tlvs.{
  yields, Tlv, out_of_fuel, max_tlvs, end_tlv, lldp_loop, lldp_tlvs, cdp_loop, cdp_tlvs,
}
use codexnet.Prelude.{
  ◌-◌, ◌∙◌, ℕ, zero, suc, ◌+◌, ◌*◌, ◌/◌, ◌%◌, ◌≤◌, ◌<◌, ◌≡◌, ◌≢◌, refl, ap, false, none, some, List,
  [], ◌∷◌, ◌++◌, append_assoc, arith, length, drop, any, ltb, All, length-append,
  take-length-append, drop-length-append, length-drop,
}

-- An element that a header can describe, but the end element.
pub record IsLldp (t : Tlv) : Type 0 where
  pub no_end : t.type ≢ 0
  pub seven_bits : t.type < 128
  pub nine_bits : length t.value < 512

abbrev header_of : Tlv → ℕ
header_of t = t.type * 512 + length t.value

unfoldable pub encode_lldp : List Tlv → List ℕ
encode_lldp [] = []
encode_lldp (t ∷ ts) = header_of t / 256 ∷ header_of t % 256 ∷ t.value ++ encode_lldp ts

unfoldable pub zeros : ℕ → List ℕ
zeros zero = []
zeros (suc n) = 0 ∷ zeros n

zeros_silent : (n : ℕ) → any (λ b. ltb 0 b) (zeros n) ≡ false
unfolding zeros
zeros_silent zero = refl
zeros_silent (suc n) = zeros_silent n

abbrev end_element : Tlv
end_element = record { type = 0; value = [] }

header_length : (t : Tlv) → IsLldp t → header_of t % 512 ≡ length t.value
header_length t fits = omega (arith, fits.nine_bits)

header_type : (t : Tlv) → IsLldp t → header_of t / 512 ≡ t.type
header_type t fits = omega (arith, fits.nine_bits)

header_bytes : (h : ℕ) → h / 256 * 256 + h % 256 ≡ h
header_bytes h = omega arith

lldp_round :
    (fuel count : ℕ) (t : Tlv) (rest : List ℕ)
    → IsLldp t
    → count < max_tlvs
    → lldp_loop (suc fuel) count (header_of t / 256 ∷ header_of t % 256 ∷ t.value ++ rest)
      ≡ yields t (lldp_loop fuel (count + 1) rest)
unfolding lldp_loop
lldp_round fuel count t rest fits few =
    rw
      (
        header_bytes (header_of t),
        header_length t fits,
        header_type t fits,
        drop-length-append t.value rest,
        take-length-append t.value rest,
      )
      (ground (arith, length-append t.value rest, fits.no_end))

lldp_loop-encode :
    (fuel count : ℕ) (ts : List Tlv) (padding : ℕ)
    → length (encode_lldp ts) < fuel
    → All IsLldp ts
    → count + length ts < max_tlvs
    → lldp_loop fuel count (encode_lldp ts ++ 0 ∷ 0 ∷ zeros padding)
      ≡ record { tlvs = ts ++ end_element ∷ []; outcome = none }
unfolding lldp_loop encode_lldp end_tlv
lldp_loop-encode zero count ts padding f ok few = absurd (omega arith)
lldp_loop-encode (suc fuel) count [] padding f ok few = ground (arith, zeros_silent padding)
lldp_loop-encode (suc fuel) count (t ∷ ts) padding f (fits, rest) few =
    let behind = encode_lldp ts ++ 0 ∷ 0 ∷ zeros padding in
    ap (λ bytes. lldp_loop (suc fuel) count (header_of t / 256 ∷ header_of t % 256 ∷ bytes))
      (append_assoc t.value (encode_lldp ts) (0 ∷ 0 ∷ zeros padding))
    ∙ lldp_round fuel count t behind fits (omega (arith, few))
    ∙ ap (λ y. yields t y)
        (lldp_loop-encode fuel (count + 1) ts padding
          (omega (arith, f, length-append t.value (encode_lldp ts))) rest (omega (arith, few)))

-- A list of fewer than 128 elements that headers can describe, written out with the end element and
-- a padding of zeros within the size limit, is read back as these elements and the end element.
pub lldp_tlvs-encode :
    (ts : List Tlv) (padding : ℕ)
    → All IsLldp ts
    → length ts < max_tlvs
    → length (encode_lldp ts ++ 0 ∷ 0 ∷ zeros padding) ≤ 4096
    → lldp_tlvs (encode_lldp ts ++ 0 ∷ 0 ∷ zeros padding)
      ≡ record { tlvs = ts ++ end_element ∷ []; outcome = none }
unfolding lldp_tlvs
lldp_tlvs-encode ts padding fits few room =
    let size = length-append (encode_lldp ts) (0 ∷ 0 ∷ zeros padding) in
    ground (
      arith,
      size,
      lldp_loop-encode (length (encode_lldp ts ++ 0 ∷ 0 ∷ zeros padding)) 0 ts padding
          (omega (arith, size)) fits (omega (arith, few)),
    )

end_tlv-outcome : (len : ℕ) (rest : List ℕ) → (end_tlv len rest).outcome ≢ some out_of_fuel
unfolding end_tlv
end_tlv-outcome len rest h = ground arith

lldp_loop-outcome :
    (fuel count : ℕ) (bytes : List ℕ)
    → length bytes ≤ fuel
    → (lldp_loop fuel count bytes).outcome ≢ some out_of_fuel
unfolding lldp_loop
lldp_loop-outcome fuel count [] f h = cc
lldp_loop-outcome fuel count (a ∷ []) f h = cc
lldp_loop-outcome zero count (a ∷ b ∷ rest) f h = omega arith
lldp_loop-outcome (suc fuel) count (a ∷ b ∷ rest) f h =
    let len = (a * 256 + b) % 512 in
    ground (
      arith,
      end_tlv-outcome len (drop len rest),
      length-drop len rest,
      lldp_loop-outcome fuel (count + 1) (drop len rest),
    )

cdp_loop-outcome :
    (fuel count : ℕ) (bytes : List ℕ)
    → length bytes ≤ fuel
    → (cdp_loop fuel count bytes).outcome ≢ some out_of_fuel
unfolding cdp_loop
cdp_loop-outcome fuel count [] f h = cc
cdp_loop-outcome fuel count (a ∷ []) f h = cc
cdp_loop-outcome fuel count (a ∷ b ∷ []) f h = cc
cdp_loop-outcome fuel count (a ∷ b ∷ c ∷ []) f h = cc
cdp_loop-outcome zero count (a ∷ b ∷ c ∷ d ∷ rest) f h = omega arith
cdp_loop-outcome (suc fuel) count (a ∷ b ∷ c ∷ d ∷ rest) f h =
    let behind = drop (c * 256 + d - 4) rest in
    ground (arith, length-drop (c * 256 + d - 4) rest, cdp_loop-outcome fuel (count + 1) behind)

-- Both generators come to their end or to a parse error, on any bytes.
pub tlvs-outcome :
    (bytes : List ℕ)
    → ((lldp_tlvs bytes).outcome ≢ some out_of_fuel) × ((cdp_tlvs bytes).outcome ≢ some out_of_fuel)
unfolding lldp_tlvs cdp_tlvs
tlvs-outcome bytes = (
  λ h. ground (arith, lldp_loop-outcome (length bytes) 0 bytes),
  cdp_loop-outcome (length bytes) 0 bytes (omega arith),
)
