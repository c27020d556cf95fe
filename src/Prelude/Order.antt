-- ===== src/Prelude/Order.antt =====
-- Python's order of numbers, texts and tuples, `sorted` with a key, and `sorted` of a set.
use codexnet.Prelude.{
  ℕ, ◌≡◌, refl, Bool, true, false, not, ◌&&◌, ◌||◌, List, [], ◌∷◌, arith, ltb, if◌then◌else◌,
}
use codexnet.Prelude.Keys.{Eq, ◌==◌}

pub record Order {ℓ} (A : Type ℓ) : Type ℓ where
  pub lt : A → A → Bool
  pub lt_irrefl : (a : A) → lt a a ≡ false
  pub lt_trans : (a b c : A) → lt a b ≡ true → lt b c ≡ true → lt a c ≡ true
  pub eq_of_not_lt : (a b : A) → lt a b ≡ false → lt b a ≡ false → a ≡ b

pub ltb_irrefl : (a : ℕ) → ltb a a ≡ false
ltb_irrefl a = ground arith

pub ltb_trans : (a b c : ℕ) → ltb a b ≡ true → ltb b c ≡ true → ltb a c ≡ true
ltb_trans a b c h k = ground arith

pub eq_of_not_ltb : (a b : ℕ) → ltb a b ≡ false → ltb b a ≡ false → a ≡ b
eq_of_not_ltb a b h k = ground arith

instance abbrev pub nat_order : Order ℕ
nat_order = record {
  lt = ltb;
  lt_irrefl = ltb_irrefl;
  lt_trans = ltb_trans;
  eq_of_not_lt = eq_of_not_ltb;
}

module _ {ℓ} {A : Type ℓ} ⦃o : Order A⦄ where
  pub lt_asym : (a b : A) → o.lt a b ≡ true → o.lt b a ≡ false
  lt_asym a b h = ground (arith, o.lt_trans a b a, o.lt_irrefl a)

  pub lt_of_not_lt : (a b c : A) → o.lt a b ≡ true → o.lt c b ≡ false → o.lt a c ≡ true
  lt_of_not_lt a b c h k = ground (arith, o.lt_trans c a b, o.eq_of_not_lt a c, o.lt_irrefl a)

  unfoldable pub list_lt : List A → List A → Bool
  list_lt [] [] = false
  list_lt [] (y ∷ ys) = true
  list_lt (x ∷ xs) [] = false
  list_lt (x ∷ xs) (y ∷ ys) = o.lt x y || (not (o.lt y x) && list_lt xs ys)

  pub list_lt_irrefl : (a : List A) → list_lt a a ≡ false
  unfolding list_lt
  list_lt_irrefl [] = refl
  list_lt_irrefl (x ∷ xs) = ground (arith, o.lt_irrefl x, list_lt_irrefl xs)

  pub list_lt_trans :
      (a b c : List A) → list_lt a b ≡ true → list_lt b c ≡ true → list_lt a c ≡ true
  unfolding list_lt
  list_lt_trans [] [] [] h k = ground arith
  list_lt_trans [] [] (z ∷ c) h k = ground arith
  list_lt_trans [] (y ∷ b) [] h k = ground arith
  list_lt_trans [] (y ∷ b) (z ∷ c) h k = ground arith
  list_lt_trans (x ∷ a) [] [] h k = ground arith
  list_lt_trans (x ∷ a) [] (z ∷ c) h k = ground arith
  list_lt_trans (x ∷ a) (y ∷ b) [] h k = ground arith
  list_lt_trans (x ∷ a) (y ∷ b) (z ∷ c) h k = ground (
    arith,
    list_lt_trans a b c,
    o.lt_trans x y z,
    o.lt_trans z x y,
    o.lt_trans y z x,
    o.eq_of_not_lt x y,
    o.eq_of_not_lt y z,
    o.eq_of_not_lt x z,
  )

  pub eq_of_not_list_lt : (a b : List A) → list_lt a b ≡ false → list_lt b a ≡ false → a ≡ b
  unfolding list_lt
  eq_of_not_list_lt [] [] h k = refl
  eq_of_not_list_lt [] (y ∷ b) h k = ground arith
  eq_of_not_list_lt (x ∷ a) [] h k = ground arith
  eq_of_not_list_lt (x ∷ a) (y ∷ b) h k = ground (arith, eq_of_not_list_lt a b, o.eq_of_not_lt x y)

  instance abbrev pub list_order : Order (List A)
  list_order = record {
    lt = list_lt;
    lt_irrefl = list_lt_irrefl;
    lt_trans = list_lt_trans;
    eq_of_not_lt = eq_of_not_list_lt;
  }

module _ {ℓ κ} {A : Type ℓ} {B : Type κ} ⦃o : Order A⦄ ⦃q : Order B⦄ where
  abbrev pub pair_lt : A × B → A × B → Bool
  pair_lt (a, b) (c, d) = o.lt a c || (not (o.lt c a) && q.lt b d)

  pub pair_lt_trans : (x y z : A × B) → pair_lt x y ≡ true → pair_lt y z ≡ true → pair_lt x z ≡ true
  pair_lt_trans (x, a) (y, b) (z, c) h k = ground (
    arith,
    q.lt_trans a b c,
    o.lt_trans x y z,
    o.lt_trans z x y,
    o.lt_trans y z x,
    o.eq_of_not_lt x y,
    o.eq_of_not_lt y z,
    o.eq_of_not_lt x z,
  )

  pub pair_lt_irrefl : (x : A × B) → pair_lt x x ≡ false
  pair_lt_irrefl (x, a) = ground (arith, o.lt_irrefl x, q.lt_irrefl a)

  pub eq_of_not_pair_lt : (x y : A × B) → pair_lt x y ≡ false → pair_lt y x ≡ false → x ≡ y
  eq_of_not_pair_lt (x, a) (y, b) h k = ground (arith, o.eq_of_not_lt x y, q.eq_of_not_lt a b)

  instance abbrev pub pair_order : Order (A × B)
  pair_order = record {
    lt = pair_lt;
    lt_irrefl = pair_lt_irrefl;
    lt_trans = pair_lt_trans;
    eq_of_not_lt = eq_of_not_pair_lt;
  }

module _ {ℓ κ} {A : Type ℓ} {K : Type κ} ⦃o : Order K⦄ (key : A → K) where
  -- before the first element whose key is not smaller
  unfoldable pub insert_by : A → List A → List A
  insert_by x [] = x ∷ []
  insert_by x (y ∷ ys) =
      let rest = insert_by x ys in if o.lt (key y) (key x) then y ∷ rest else x ∷ y ∷ ys

  -- sorted(xs, key=key), which keeps the order of equal keys
  unfoldable pub sort_by : List A → List A
  unfolding insert_by
  sort_by [] = []
  sort_by (x ∷ xs) = insert_by x (sort_by xs)

module _ {ℓ} {A : Type ℓ} ⦃e : Eq A⦄ ⦃o : Order A⦄ where
  unfoldable pub insert_new : A → List A → List A
  insert_new x [] = x ∷ []
  insert_new x (y ∷ ys) =
      let rest = insert_new x ys in
      if x == y then y ∷ ys else if o.lt y x then y ∷ rest else x ∷ y ∷ ys

  -- sorted(set(xs))
  unfoldable pub sorted_set : List A → List A
  unfolding insert_new
  sorted_set [] = []
  sorted_set (x ∷ xs) = insert_new x (sorted_set xs)
