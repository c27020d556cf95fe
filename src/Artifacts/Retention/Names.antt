-- ===== src/Artifacts/Retention/Names.antt =====
-- Which published artifacts the retention can read again: the metadata's own name is checked by the
-- rule for artifacts, so the suffix counts against its limit.
use codexnet.Prelude.{
  drop_of_length, length-append, ◌&&◌, ◌-◌, arith, refl, ◌++◌, all, leb, length, Bool, drop, ◌≡◌, ℕ,
  true, [], ◌∷◌,
}
use codexnet.Artifacts.{
  all, leb, length, Bool, drop, is_alphanumeric, list_beq, Text, is_name_char, ℕ, metadata_name,
  metadata_suffix, is_safe_name, has_metadata_suffix,
}
use codexnet.Prelude.Keys.{list_beq_iff, list_beq, nat_eq, list_eq}
use codexnet.Prelude.Text.{Text}
use codexnet.Prelude.Order.{nat_order, list_order}

all-append : (p : ℕ → Bool) (xs ys : Text) → all p (xs ++ ys) ≡ (all p xs && all p ys)
all-append p [] ys = refl
all-append p (x ∷ xs) ys = ground (arith, all-append p xs ys)

-- The metadata's name is a safe one exactly if the artifact's is and has at most 86 characters.
pub metadata_name_safe :
    (name : Text)
    → is_safe_name name ≡ true
    → is_safe_name (metadata_name name) ≡ leb (length name) 86
unfolding is_safe_name is_name_char is_alphanumeric
metadata_name_safe [] h = absurd (ground arith)
metadata_name_safe (c ∷ cs) h =
    let plain : all is_name_char metadata_suffix ≡ true = refl in
    ground
      (arith, all-append is_name_char cs metadata_suffix, length-append cs metadata_suffix, plain)

list_beq_refl : (s : Text) → list_beq s s ≡ true
list_beq_refl s = (list_beq_iff s s).1 refl

drop-prefix : (xs ys : Text) → drop (length (xs ++ ys) - length ys) (xs ++ ys) ≡ ys
drop-prefix xs ys =
    drop_of_length (length (xs ++ ys) - length ys) xs ys (omega (arith, length-append xs ys))

pub metadata_name-has_suffix : (name : Text) → has_metadata_suffix (metadata_name name) ≡ true
unfolding has_metadata_suffix
metadata_name-has_suffix name =
    rw (drop-prefix name metadata_suffix) (list_beq_refl metadata_suffix)
