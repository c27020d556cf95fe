-- ===== src/Dhcp/Options/Encoding.antt =====
-- dhcp.py, `_options`: against the wire format of option lists as RFC 2132 describes it.
use codexnet.Prelude.{
  ℕ, zero, suc, ◌≤◌, ◌<◌, ◌≡◌, ◌≢◌, none, List, [], ◌∷◌, ◌++◌, arith, append-nil, append_assoc,
  length, take, drop, length-append, take-length-append, drop-length-append, drop_of_length,
  take-append-drop, length-take, length-drop, inl, inr, Bool-cases, nat_beq,
}
use mathlib.Core.Path.{subst}
use codexnet.Prelude.Keys.{nat_eq}
use codexnet.Prelude.Result.{ok, err, Result-cases}
use codexnet.OrderedDict.{lookup, put}
use codexnet.OrderedDict.Lookup.{put_absent}
use codexnet.Dhcp.Options.{
  Options, out_of_fuel, next_option, options_loop, options, dhcp_fixed_bytes,
}

-- A pad byte, or an option with its code and its value.
pub data Item : Type 0 where
  pad : Item
  opt : ℕ → List ℕ → Item

unfoldable pub encode : List Item → List ℕ
encode [] = []
encode (pad ∷ items) = 0 ∷ encode items
encode (opt code value ∷ items) = code ∷ length value ∷ value ++ encode items

-- The options of a list in order.
unfoldable pub values : List Item → Options
values [] = []
values (pad ∷ items) = values items
values (opt code value ∷ items) = (code, value) ∷ values items

-- The codes are no markers and new behind those of `seen`.
abbrev pub IsFresh : Options → List Item → Type 0
IsFresh seen [] = Unit
IsFresh seen (pad ∷ items) = IsFresh seen items
IsFresh seen (opt code value ∷ items) =
    (code ≢ 0) × (code ≢ 255) × (lookup code seen ≡ none) × IsFresh (put code value seen) items

next_option_lem :
    (code : ℕ) (value rest : List ℕ) (seen : Options)
    → lookup code seen ≡ none
    → next_option code (length value ∷ value ++ rest) seen ≡ ok (rest, put code value seen)
unfolding next_option
next_option_lem code value rest seen h =
    ground (
      arith,
      length-append value rest,
      take-length-append value rest,
      drop-length-append value rest,
    )

options_loop-encode :
    (fuel : ℕ) (items : List Item) (tail : List ℕ) (seen : Options)
    → length (encode items) < fuel
    → IsFresh seen items
    → options_loop fuel (encode items ++ 255 ∷ tail) seen ≡ ok (seen ++ values items)
unfolding options_loop encode values
options_loop-encode zero items tail seen f h = absurd (omega arith)
options_loop-encode (suc fuel) [] tail seen f h = rw (append-nil seen)
options_loop-encode (suc fuel) (pad ∷ items) tail seen f h =
    options_loop-encode fuel items tail seen (omega arith) h
options_loop-encode (suc fuel) (opt code value ∷ items) tail seen f (h0, h255, new, h) = ground (
  arith,
  length-append value (encode items),
  append_assoc value (encode items) (255 ∷ tail),
  next_option_lem code value (encode items ++ 255 ∷ tail) seen new,
  options_loop-encode fuel items tail (put code value seen),
  put_absent code value seen,
  append_assoc seen ((code, value) ∷ []) (values items),
  h0,
  h255,
)

-- A fixed header of 240 bytes, an option list with distinct codes, its end marker and any bytes
-- behind it are read back as exactly these options, in their order.
pub options-encode :
    (header : List ℕ) (items : List Item) (tail : List ℕ)
    → length header ≡ dhcp_fixed_bytes
    → IsFresh [] items
    → options (header ++ (encode items ++ 255 ∷ tail)) ≡ ok (values items)
unfolding options
options-encode header items tail h fresh =
    rw (drop_of_length dhcp_fixed_bytes header (encode items ++ 255 ∷ tail) h) (
      options_loop-encode _ items tail []
        (omega (
          arith,
          length-append header (encode items ++ 255 ∷ tail),
          length-append (encode items) (255 ∷ tail),
        ))
        fresh)

next_option_inv :
    (code : ℕ) (rest : List ℕ) (seen : Options) {rest' : List ℕ} {seen' : Options}
    → next_option code rest seen ≡ ok (rest', seen')
    → (value : List ℕ) × (rest ≡ length value ∷ value ++ rest')
      × (lookup code seen ≡ none)
      × (seen' ≡ put code value seen)
unfolding next_option
next_option_inv code [] seen h = cc
next_option_inv code (len ∷ rest) seen h = (
  take len rest,
  ground (arith, take-append-drop len rest, length-take len rest),
  ground arith,
  ground arith,
)

options_loop_inv :
    (fuel : ℕ) (bytes : List ℕ) (seen d : Options)
    → options_loop fuel bytes seen ≡ ok d
    → (items : List Item) × (tail : List ℕ) × (bytes ≡ encode items ++ 255 ∷ tail)
      × IsFresh seen items
      × (d ≡ seen ++ values items)
unfolding options_loop encode values
options_loop_inv fuel [] seen d h = cc
options_loop_inv zero (code ∷ rest) seen d h = cc
options_loop_inv (suc fuel) (code ∷ rest) seen d h = elim (Bool-cases (nat_beq code 0)) [
  | inl at_pad ↦
      let (items, tail, e, fresh, v) = options_loop_inv fuel rest seen d (ground arith) in
      (pad ∷ items, tail, ground arith, fresh, v)
  | inr no_pad ↦ elim (Bool-cases (nat_beq code 255)) [
    | inl at_end ↦ ([], rest, ground arith, tt, ground (arith, append-nil seen))
    | inr no_end ↦ elim (Result-cases (next_option code rest seen)) [
      | inr (x, failed) ↦ absurd (ground arith)
      | inl ((rest', seen'), found) ↦
          let (value, shape, new, put_eq) = next_option_inv code rest seen found in
          let (items, tail, e, fresh, v) = options_loop_inv fuel rest' seen' d (ground arith) in
          (
            opt code value ∷ items,
            tail,
            ground (arith, append_assoc value (encode items) (255 ∷ tail)),
            (ground arith, ground arith, new, subst (λ s. IsFresh s items) put_eq fresh),
            ground (
              arith,
              put_absent code value seen,
              append_assoc seen ((code, value) ∷ []) (values items),
            ),
          )
    ]
  ]
]

-- Whatever `options` accepts is an option list: behind the header stand options with distinct codes
-- that are no markers, pads among them, the end marker and ignored bytes, and the dictionary holds
-- exactly these options in their order.
pub options_sound :
    (payload : List ℕ) (d : Options)
    → options payload ≡ ok d
    → (items : List Item) × (tail : List ℕ) × (drop dhcp_fixed_bytes payload
        ≡ encode items ++ 255 ∷ tail)
      × IsFresh [] items
      × (d ≡ values items)
unfolding options
options_sound payload d h = options_loop_inv (length payload) (drop dhcp_fixed_bytes payload) [] d h

next_option_shrinks :
    (code : ℕ) (rest : List ℕ) (seen : Options)
    → (next_option code rest seen ≢ err out_of_fuel)
      × ((rest' : List ℕ) (seen' : Options)
          → next_option code rest seen ≡ ok (rest', seen')
          → length rest' < length rest)
unfolding next_option
next_option_shrinks code [] seen = (λ h. cc, λ _ _ h. cc)
next_option_shrinks code (len ∷ rest) seen =
    (λ h. ground arith, λ rest' seen' h. ground (arith, length-drop len rest))

options_loop-ne-out_of_fuel :
    (fuel : ℕ) (bytes : List ℕ) (seen : Options)
    → length bytes ≤ fuel
    → options_loop fuel bytes seen ≢ err out_of_fuel
unfolding options_loop
options_loop-ne-out_of_fuel fuel [] seen f h = cc
options_loop-ne-out_of_fuel zero (code ∷ rest) seen f h = omega arith
options_loop-ne-out_of_fuel (suc fuel) (code ∷ rest) seen f h =
    elim (Result-cases (next_option code rest seen)) [
      | inr (x, failed) ↦ ground (
        arith,
        options_loop-ne-out_of_fuel fuel rest seen,
        (next_option_shrinks code rest seen).0,
      )
      | inl ((rest', seen'), found) ↦ ground (
        arith,
        options_loop-ne-out_of_fuel fuel rest seen,
        options_loop-ne-out_of_fuel fuel rest' seen',
        (next_option_shrinks code rest seen).1 rest' seen' found,
      )
    ]

-- The loop over the options always comes to its end marker or to a parse error.
pub options-ne-out_of_fuel : (payload : List ℕ) → options payload ≢ err out_of_fuel
unfolding options
options-ne-out_of_fuel payload =
    options_loop-ne-out_of_fuel (length payload) (drop dhcp_fixed_bytes payload) []
      (omega (arith, length-drop dhcp_fixed_bytes payload))
