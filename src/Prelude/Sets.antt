-- ===== src/Prelude/Sets.antt =====
-- A sorted set is fixed by its members: the order in which they were added leaves no trace.
use codexnet.Prelude.{List, ◌↔◌, ◌≡◌, ◌∷◌, [], refl, arith, inl, inr, sym}
use codexnet.Prelude.Sorting.{Among, Rises, Among-sorted_set, sorted_set-Rises}
use codexnet.Prelude.Keys.{Eq}
use codexnet.Prelude.Order.{Order, sorted_set, lt_asym}

abbrev pub SameMembers : {A : Type 0} → List A → List A → Type 0
SameMembers xs ys = (x : _) → Among x xs ↔ Among x ys

module _ {A : Type 0} ⦃e : Eq A⦄ ⦃o : Order A⦄ where
  -- The member of the one list is in the tail of the other, behind its own first.
  same_first :
      (x y : A) (xs ys : List A)
      → Rises (x ∷ xs)
      → Rises (y ∷ ys)
      → SameMembers (x ∷ xs) (y ∷ ys)
      → x ≡ y
  same_first x y xs ys h k same = elim ((same x).0 (inl refl)) [
    | inl here ↦ here
    | inr there ↦ elim ((same y).1 (inl refl)) [
      | inl here ↦ sym here
      | inr behind ↦ absurd (ground (arith, h.0 y behind, k.0 x there, lt_asym x y))
    ]
  ]

  tail_member :
      (x y z : A) (xs ys : List A)
      → Rises (x ∷ xs)
      → x ≡ y
      → (Among z (x ∷ xs) → Among z (y ∷ ys))
      → Among z xs
      → Among z ys
  tail_member x y z xs ys h first keep among = elim (keep (inr among)) [
    | inr there ↦ there
    | inl here ↦ absurd (ground (arith, h.0 z among, o.lt_irrefl x))
  ]

  Rises-unique : (xs ys : List A) → Rises xs → Rises ys → SameMembers xs ys → xs ≡ ys
  Rises-unique [] [] h k same = refl
  Rises-unique [] (y ∷ ys) h k same = absurd ((same y).1 (inl refl))
  Rises-unique (x ∷ xs) [] h k same = absurd ((same x).0 (inl refl))
  Rises-unique (x ∷ xs) (y ∷ ys) h k same =
      let first = same_first x y xs ys h k same in
      let tails : xs ≡ ys = Rises-unique xs ys h.1 k.1 (λ z. (
        tail_member x y z xs ys h first (same z).0,
        tail_member y x z ys xs k (sym first) (same z).1,
      )) in
      rw (first, tails) refl

  pub sorted_set_unique : (xs ys : List A) → SameMembers xs ys → sorted_set xs ≡ sorted_set ys
  sorted_set_unique xs ys same =
      Rises-unique (sorted_set xs) (sorted_set ys) (sorted_set-Rises xs) (sorted_set-Rises ys)
        (λ z. ground (arith, Among-sorted_set z xs, Among-sorted_set z ys, same z))
