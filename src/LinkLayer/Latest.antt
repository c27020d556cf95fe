-- ===== src/LinkLayer/Latest.antt =====
-- link_layer.py: which element of a frame a field is read from, the last one of its type.
use codexnet.Prelude.{
  ℕ, ◌≡◌, ◌≢◌, ◌⊎◌, inl, inr, Option, none, some, List, [], ◌∷◌, nat_beq, nat_beq_iff,
  if◌then◌else◌, refl, ◌∙◌, ap, arith, Bool-cases,
}
use codexnet.Prelude.Result.{Result, ok}
use codexnet.LinkLayer.Tlvs.{LinkError, Tlv}

abbrev or_this : ℕ → Tlv → Option (List ℕ) → Option (List ℕ)
or_this k t (some value) = some value
or_this k t none = if nat_beq t.type k then some t.value else none

-- The value of the last element of the type.
abbrev pub latest : ℕ → List Tlv → Option (List ℕ)
latest k [] = none
latest k (t ∷ ts) = or_this k t (latest k ts)

module _ {A : Type 0} (read : List ℕ → Result LinkError A) (k : ℕ) where
  -- The field is what the reader makes of the last element of the type.
  abbrev pub IsRead : List Tlv → A → Type 0
  IsRead ts a = (value : List ℕ) × (latest k ts ≡ some value) × (read value ≡ ok a)

  -- What the elements make of a field.
  abbrev pub Reads : List Tlv → Option A → Option A → Type 0
  Reads ts old new = ((latest k ts ≡ none) × (new ≡ old)) ⊎ ((a : A) × IsRead ts a × (new ≡ some a))

  -- What one element makes of it.
  abbrev pub ReadsOne : Tlv → Option A → Option A → Type 0
  ReadsOne t old new =
      (t.type ≡ k → (a : A) × (read t.value ≡ ok a) × (new ≡ some a)) × (t.type ≢ k → new ≡ old)

  pub Reads-cons :
      (t : Tlv) (ts : List Tlv) (old mid new : Option A)
      → ReadsOne t old mid
      → Reads ts mid new
      → Reads (t ∷ ts) old new
  Reads-cons t ts old mid new one (inr (a, (value, last, good), at)) =
      inr (a, (value, ap (or_this k t) last, good), at)
  Reads-cons t ts old mid new one (inl (away, same)) = elim (Bool-cases (nat_beq t.type k)) [
    | inl here ↦
        let (a, good, at) = one.0 ((nat_beq_iff t.type k).0 here) in
        inr (a, (t.value, rw (away, here) refl, good), same ∙ at)
    | inr other ↦ inl (rw (away, other) refl, same ∙ one.1 (ground (arith, nat_beq_iff t.type k)))
  ]

  -- A field that is given in the end was read.
  Reads-given : (ts : List Tlv) (a : A) → Reads ts none (some a) → IsRead ts a
  Reads-given ts a (inl (away, same)) = cc
  Reads-given ts a (inr (b, (value, last, good), at)) =
      let same : b ≡ a = cc in (value, last, good ∙ ap (λ c. ok c) same)

  pub Reads-shown :
      (ts : List Tlv) (new : Option A)
      → new ≢ none
      → Reads ts none new
      → (a : A) × (new ≡ some a) × IsRead ts a
  Reads-shown ts none h r = absurd (h refl)
  Reads-shown ts (some a) h r = (a, refl, Reads-given ts a r)
