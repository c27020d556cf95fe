-- ===== src/Correlation/UnionFind/Linked.antt =====
-- The classes that a sequence of unions makes, against the equivalence that its pairs generate.
use codexnet.Prelude.{
  ◌++◌, ap, refl, ◌∙◌, sym, Bool-cases, inl, inr, arith, if◌then◌else◌, ◌⊎◌, List, ◌≡◌, [], ◌∷◌,
}
use mathlib.Core.Path.{subst₂}
use codexnet.Prelude.Sorting.{Among}
use codexnet.Prelude.Keys.{Eq, ◌==◌}
use codexnet.Prelude.Order.{Order}
use codexnet.Correlation.UnionFind.Union.{joined}

-- What a relation connects: its equivalence closure.
pub data Linked {K : Type 0} (Edge : K → K → Type 0) : K → K → Type 0 where
  same : {x : K} → Linked Edge x x
  edge : {x y : K} → Edge x y → Linked Edge x y
  back : {x y : K} → Linked Edge x y → Linked Edge y x
  chain : {x y z : K} → Linked Edge x y → Linked Edge y z → Linked Edge x z

module _ {K : Type 0} {Edge Other : K → K → Type 0} where
  pub Linked-bind :
      ((a b : K) → Edge a b → Linked Other a b) → {x y : K} → Linked Edge x y → Linked Other x y
  Linked-bind f same = same
  Linked-bind f (edge {x = x} {y = y} h) = f x y h
  Linked-bind f (back h) = back (Linked-bind f h)
  Linked-bind f (chain h k) = chain (Linked-bind f h) (Linked-bind f k)

  pub Linked-map :
      ((a b : K) → Edge a b → Other a b) → {x y : K} → Linked Edge x y → Linked Other x y
  Linked-map f = Linked-bind (λ a b h. edge (f a b h))

module _ {K : Type 0} ⦃e : Eq K⦄ ⦃o : Order K⦄ where
  -- The unions of a list of pairs, those of one class passed over.
  abbrev pub joins : (K → K) → List (K × K) → K → K
  joins rep [] = rep
  joins rep ((a, b) ∷ pairs) =
      let skipped = joins rep pairs in
      let united = joins (joined rep a b) pairs in if rep a == rep b then skipped else united

  abbrev pub Pair : (K → K) → List (K × K) → K → K → Type 0
  Pair rep pairs a b = (rep a ≡ rep b) ⊎ Among (a, b) pairs

  joined_sound :
      (rep : K → K) (a b x y : K)
      → joined rep a b x ≡ joined rep a b y
      → (rep x ≡ rep y) ⊎ ((rep x ≡ rep a) × (rep y ≡ rep b)) ⊎ ((rep x ≡ rep b) × (rep y ≡ rep a))
  joined_sound rep a b x y h = ground (
    arith,
    e.beq_iff (rep x) (rep a),
    e.beq_iff (rep x) (rep b),
    e.beq_iff (rep y) (rep a),
    e.beq_iff (rep y) (rep b),
  )

  joined_same : (rep : K → K) (a b : K) → joined rep a b a ≡ joined rep a b b
  joined_same rep a b = ground (
    arith,
    e.beq_iff (rep a) (rep a),
    e.beq_iff (rep b) (rep b),
    e.beq_iff (rep a) (rep b),
    e.beq_iff (rep b) (rep a),
  )

  joined_keeps : (rep : K → K) (a b x y : K) → rep x ≡ rep y → joined rep a b x ≡ joined rep a b y
  joined_keeps rep a b x y h = ground arith

  -- An edge after the first union of the list.
  step-Linked :
      (rep : K → K) (a b : K) (pairs : List (K × K)) (x y : K)
      → Pair (joined rep a b) pairs x y
      → Linked (Pair rep ((a, b) ∷ pairs)) x y
  step-Linked rep a b pairs x y (inr h) = edge (inr (inr h))
  step-Linked rep a b pairs x y (inl h) =
      let bridge : Linked (Pair rep ((a, b) ∷ pairs)) a b = edge (inr (inl refl)) in
      elim (joined_sound rep a b x y h) [
        | inl near ↦ edge (inl near)
        | inr (inl (hx, hy)) ↦ chain (edge (inl hx)) (chain bridge (edge (inl (sym hy))))
        | inr (inr (hx, hy)) ↦ chain (edge (inl hx)) (chain (back bridge) (edge (inl (sym hy))))
      ]

  pub joins_sound :
      (rep : K → K) (pairs : List (K × K)) (x y : K)
      → joins rep pairs x ≡ joins rep pairs y
      → Linked (Pair rep pairs) x y
  joins_sound rep [] x y h = edge (inl h)
  joins_sound rep ((a, b) ∷ pairs) x y h = elim (Bool-cases (rep a == rep b)) [
    | inl one ↦
        Linked-map (λ u v k. elim k [ inl near ↦ inl near | inr among ↦ inr (inr among) ])
          (joins_sound rep pairs x y (rw (one, if◌then◌else◌) at h))
    | inr two ↦
        Linked-bind (step-Linked rep a b pairs)
          (joins_sound (joined rep a b) pairs x y (rw (two, if◌then◌else◌) at h))
  ]

  joins_keeps :
      (rep : K → K) (pairs : List (K × K)) (x y : K)
      → rep x ≡ rep y
      → joins rep pairs x ≡ joins rep pairs y
  joins_keeps rep [] x y h = h
  joins_keeps rep ((a, b) ∷ pairs) x y h = elim (Bool-cases (rep a == rep b)) [
    | inl one ↦ rw (one, if◌then◌else◌) (joins_keeps rep pairs x y h)
    | inr two ↦
        rw (two, if◌then◌else◌)
          (joins_keeps (joined rep a b) pairs x y (joined_keeps rep a b x y h))
  ]

  joins-Among :
      (rep : K → K) (pairs : List (K × K)) (x y : K)
      → Among (x, y) pairs
      → joins rep pairs x ≡ joins rep pairs y
  joins-Among rep [] x y h = absurd h
  joins-Among rep ((a, b) ∷ pairs) x y h = elim (Bool-cases (rep a == rep b)) [
    | inl one ↦
        rw (one, if◌then◌else◌)
          (elim h [
            | inl here ↦ joins_keeps rep pairs x y (ground (arith, e.beq_iff (rep a) (rep b)))
            | inr there ↦ joins-Among rep pairs x y there
          ])
    | inr two ↦
        rw (two, if◌then◌else◌)
          (elim h [
            | inl here ↦ joins_keeps (joined rep a b) pairs x y (
                subst₂ (λ u v. joined rep a b u ≡ joined rep a b v) (sym (ap (λ q. q.0) here))
                  (sym (ap (λ q. q.1) here)) (joined_same rep a b))
            | inr there ↦ joins-Among (joined rep a b) pairs x y there
          ])
  ]

  pub joins_complete :
      (rep : K → K) (pairs : List (K × K)) {x y : K}
      → Linked (Pair rep pairs) x y
      → joins rep pairs x ≡ joins rep pairs y
  joins_complete rep pairs same = refl
  joins_complete rep pairs (edge {x = x} {y = y} (inl near)) = joins_keeps rep pairs x y near
  joins_complete rep pairs (edge {x = x} {y = y} (inr among)) = joins-Among rep pairs x y among
  joins_complete rep pairs (back h) = sym (joins_complete rep pairs h)
  joins_complete rep pairs (chain h k) = joins_complete rep pairs h ∙ joins_complete rep pairs k

  pub joins-append :
      (rep : K → K) (first second : List (K × K))
      → joins rep (first ++ second) ≡ joins (joins rep first) second
  joins-append rep [] second = refl
  joins-append rep ((a, b) ∷ first) second = elim (Bool-cases (rep a == rep b)) [
    | inl one ↦ rw (one, if◌then◌else◌) (joins-append rep first second)
    | inr two ↦ rw (two, if◌then◌else◌) (joins-append (joined rep a b) first second)
  ]
