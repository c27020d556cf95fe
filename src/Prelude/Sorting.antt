-- ===== src/Prelude/Sorting.antt =====
-- What sorting keeps: the members, how many satisfy a test, and the order of the keys.
use codexnet.Prelude.{
  length, Bool-cases, ltb, true, ◌<◌, ◌≢◌, ap, ◌∙◌, flat_map, map, ℕ, ◌≡◌, refl, ◌↔◌, ◌⊎◌, inl, inr,
  Bool, List, [], ◌∷◌, ◌++◌, ◌+◌, suc, arith, if◌then◌else◌,
}
use codexnet.Prelude.Keys.{◌==◌, Eq}
use mathlib.Core.Path.{subst}
use codexnet.Prelude.Order.{Order, insert_by, sort_by, insert_new, sorted_set}

module _ {A : Type 0} where
  abbrev pub Among : A → List A → Type 0
  Among x [] = ⊥
  Among x (y ∷ ys) = (x ≡ y) ⊎ Among x ys

  abbrev pub count_if : (A → Bool) → List A → ℕ
  count_if p [] = 0
  count_if p (x ∷ xs) = if p x then suc (count_if p xs) else count_if p xs

  pub Among-append : (x : A) (xs ys : List A) → Among x (xs ++ ys) ↔ (Among x xs ⊎ Among x ys)
  Among-append x [] ys = ground arith
  Among-append x (y ∷ xs) ys = ground (arith, Among-append x xs ys)

  pub count_if-append :
      (p : A → Bool) (xs ys : List A) → count_if p (xs ++ ys) ≡ count_if p xs + count_if p ys
  count_if-append p [] ys = omega arith
  count_if-append p (x ∷ xs) ys = ground (arith, count_if-append p xs ys)

module _ {κ} {A : Type 0} {K : Type κ} ⦃o : Order K⦄ (key : A → K) where
  Among-insert_by : (x y : A) (xs : List A) → Among y (insert_by key x xs) ↔ ((y ≡ x) ⊎ Among y xs)
  unfolding insert_by
  Among-insert_by x y [] = ground arith
  Among-insert_by x y (z ∷ xs) = ground (arith, Among-insert_by x y xs)

  pub Among-sort_by : (y : A) (xs : List A) → Among y (sort_by key xs) ↔ Among y xs
  unfolding sort_by
  Among-sort_by y [] = ground arith
  Among-sort_by y (x ∷ xs) =
      ground (arith, Among-insert_by x y (sort_by key xs), Among-sort_by y xs)

  count_if-insert_by :
      (p : A → Bool) (x : A) (xs : List A) → count_if p (insert_by key x xs) ≡ count_if p (x ∷ xs)
  unfolding insert_by
  count_if-insert_by p x [] = refl
  count_if-insert_by p x (y ∷ xs) = ground (arith, count_if-insert_by p x xs)

  pub count_if-sort_by : (p : A → Bool) (xs : List A) → count_if p (sort_by key xs) ≡ count_if p xs
  unfolding sort_by
  count_if-sort_by p [] = refl
  count_if-sort_by p (x ∷ xs) =
      ground (arith, count_if-insert_by p x (sort_by key xs), count_if-sort_by p xs)

module _ {A : Type 0} ⦃e : Eq A⦄ ⦃o : Order A⦄ where
  Among-insert_new : (x y : A) (xs : List A) → Among y (insert_new x xs) ↔ ((y ≡ x) ⊎ Among y xs)
  unfolding insert_new
  Among-insert_new x y [] = ground arith
  Among-insert_new x y (z ∷ xs) = ground (arith, Among-insert_new x y xs, e.beq_iff x z)

  pub Among-sorted_set : (y : A) (xs : List A) → Among y (sorted_set xs) ↔ Among y xs
  unfolding sorted_set
  Among-sorted_set y [] = ground arith
  Among-sorted_set y (x ∷ xs) =
      ground (arith, Among-insert_new x y (sorted_set xs), Among-sorted_set y xs)

module _ {A : Type 0} {B : Type 0} (f : A → List B) where
  pub Among-flat_map :
      (y : B) (xs : List A) → Among y (flat_map f xs) ↔ ((x : A) × Among x xs × Among y (f x))
  Among-flat_map y [] = (λ h. absurd h, λ h. absurd h.1)
  Among-flat_map y (x ∷ xs) = (
    λ h. elim ((Among-append y (f x) (flat_map f xs)).0 h) [
      | inl here ↦ (x, inl refl, here)
      | inr there ↦ let (z, among, at) = (Among-flat_map y xs).0 there in (z, inr among, at)
    ],
    λ (z, among, at). (Among-append y (f x) (flat_map f xs)).1 (elim among [
      | inl here ↦ inl (subst (λ u. Among y (f u)) here at)
      | inr there ↦ inr ((Among-flat_map y xs).1 (z, there, at))
    ]),
  )

module _ {A : Type 0} {B : Type 0} where
  pub Among-map :
      (g : A → B) (y : B) (xs : List A) → Among y (map g xs) ↔ ((x : A) × Among x xs × (y ≡ g x))
  Among-map g y [] = (λ h. absurd h, λ h. absurd h.1)
  Among-map g y (x ∷ xs) = (
    λ h. elim h [
      | inl here ↦ (x, inl refl, here)
      | inr there ↦ let (z, among, at) = (Among-map g y xs).0 there in (z, inr among, at)
    ],
    λ (z, among, at). elim among [
      | inl here ↦ inl (at ∙ ap g here)
      | inr there ↦ inr ((Among-map g y xs).1 (z, there, at))
    ],
  )

  pub count_if-map :
      (g : A → B) (q : B → Bool) (xs : List A) → count_if q (map g xs) ≡ count_if (λ x. q (g x)) xs
  count_if-map g q [] = refl
  count_if-map g q (x ∷ xs) = ground (arith, count_if-map g q xs)

  -- Sorting first makes no difference to what is counted behind it.
  count_if-flat_map-insert_by :
      {K : Type 0} ⦃o : Order K⦄ (key : A → K) (f : A → List B) (q : B → Bool) (x : A) (xs : List A)
      → count_if q (flat_map f (insert_by key x xs)) ≡ count_if q (flat_map f (x ∷ xs))
  unfolding insert_by
  count_if-flat_map-insert_by key f q x [] = refl
  count_if-flat_map-insert_by key f q x (y ∷ xs) = ground (
    arith,
    count_if-flat_map-insert_by key f q x xs,
    count_if-append q (f y) (flat_map f (insert_by key x xs)),
    count_if-append q (f y) (flat_map f xs),
    count_if-append q (f x) (flat_map f xs),
    count_if-append q (f x) (f y ++ flat_map f xs),
  )

  pub count_if-flat_map-sort_by :
      {K : Type 0} ⦃o : Order K⦄ (key : A → K) (f : A → List B) (q : B → Bool) (xs : List A)
      → count_if q (flat_map f (sort_by key xs)) ≡ count_if q (flat_map f xs)
  unfolding sort_by
  count_if-flat_map-sort_by key f q [] = refl
  count_if-flat_map-sort_by key f q (x ∷ xs) = ground (
    arith,
    count_if-flat_map-insert_by key f q x (sort_by key xs),
    count_if-flat_map-sort_by key f q xs,
    count_if-append q (f x) (flat_map f (sort_by key xs)),
    count_if-append q (f x) (flat_map f xs),
  )

module _ {A : Type 0} ⦃e : Eq A⦄ ⦃o : Order A⦄ where
  -- Every element smaller than those behind it.
  abbrev pub Rises : List A → Type 0
  Rises [] = Unit
  Rises (x ∷ xs) = ((y : A) → Among y xs → o.lt x y ≡ true) × Rises xs

  insert_new-Rises : (x : A) (xs : List A) → Rises xs → Rises (insert_new x xs)
  unfolding insert_new
  insert_new-Rises x [] h = (λ y k. absurd k, tt)
  insert_new-Rises x (y ∷ xs) (least, rest) = elim (Bool-cases (x == y)) [
    | inl here ↦ rw (here, if◌then◌else◌) (least, rest)
    | inr away ↦ elim (Bool-cases (o.lt y x)) [
      | inl less ↦
          rw (away, less, if◌then◌else◌)
            (
              λ z k. ground (arith, (Among-insert_new x z xs).0 k, least z),
              insert_new-Rises x xs rest,
            )
      | inr not_less ↦
          let first : o.lt x y ≡ true = ground (arith, o.eq_of_not_lt x y, e.beq_iff x y) in
          rw (away, not_less, if◌then◌else◌)
            (λ z k. ground (arith, least z, first, o.lt_trans x y z), (least, rest))
    ]
  ]

  pub sorted_set-Rises : (xs : List A) → Rises (sorted_set xs)
  unfolding sorted_set
  sorted_set-Rises [] = tt
  sorted_set-Rises (x ∷ xs) = insert_new-Rises x (sorted_set xs) (sorted_set-Rises xs)

  -- A set with more than one member has two different ones, and conversely.
  two-Rises :
      (xs : List A)
      → Rises xs
      → 1 < length xs
      → (a : A) × (b : A) × Among a xs × Among b xs × (a ≢ b)
  two-Rises [] h k = absurd (omega arith)
  two-Rises (x ∷ []) h k = absurd (omega arith)
  two-Rises (x ∷ y ∷ xs) h k = (
    x,
    y,
    inl refl,
    inr (inl refl),
    λ one. absurd (ground (arith, h.0 y (inl refl), o.lt_irrefl y)),
  )

  two_of_set : (xs : List A) (a b : A) → Among a xs → Among b xs → a ≢ b → 1 < length xs
  two_of_set [] a b h k d = absurd h
  two_of_set (x ∷ []) a b h k d = absurd (ground (arith, d))
  two_of_set (x ∷ y ∷ xs) a b h k d = ground arith

  pub sorted_set-two_iff :
      (xs : List A)
      → (ltb 1 (length (sorted_set xs)) ≡ true)
        ↔ ((a : A) × (b : A) × Among a xs × Among b xs × (a ≢ b))
  sorted_set-two_iff xs = (
    λ h.
        let (a, b, ha, hb, d) = two-Rises (sorted_set xs) (sorted_set-Rises xs) (ground arith) in
        (a, b, (Among-sorted_set a xs).0 ha, (Among-sorted_set b xs).0 hb, d),
    λ (a, b, ha, hb, d).
        let more =
          two_of_set (sorted_set xs) a b ((Among-sorted_set a xs).1 ha)
            ((Among-sorted_set b xs).1 hb) d in
        ground arith,
  )
