-- ===== src/Prelude/Result.antt =====
-- Python code that may raise: a result or an exception, with the exceptions of each component.
use codexnet.Prelude.{◌≡◌, refl, Bool, true, false, ◌⊎◌, inl, inr}

pub data Result {ℓ} (E : Type 0) (A : Type ℓ) : Type ℓ where
  ok : A → Result E A
  err : E → Result E A

module _ {ℓ κ} {E : Type 0} {A : Type ℓ} {B : Type κ} where
  infixl 5 ◌>>=◌
  abbrev pub ◌>>=◌ : Result E A → (A → Result E B) → Result E B
  ok a >>= f = f a
  err e >>= f = err e

  -- Inversion of a successful bind.
  pub >>=-eq-ok :
      (run : Result E A) (go_on : A → Result E B) {last : B}
      → (run >>= go_on) ≡ ok last
      → (mid : A) × (run ≡ ok mid) × (go_on mid ≡ ok last)
  >>=-eq-ok (ok mid) go_on done = (mid, refl, done)
  >>=-eq-ok (err e) go_on done = cc

infixl 5 ◌>>◌
abbrev pub ◌>>◌ {ℓ} : {E : Type 0} {B : Type ℓ} → Result E (Unit {0}) → Result E B → Result E B
m >> k = m >>= λ _. k

-- `if test: raise e`
abbrev pub raise_if : {E : Type 0} → Bool → E → Result E (Unit {0})
raise_if true e = err e
raise_if false e = ok tt

-- To split on a computed result and keep the equation.
pub Result-cases {ℓ} :
    {E : Type 0} {A : Type ℓ} (r : Result E A) → ((a : A) × (r ≡ ok a)) ⊎ ((e : E) × (r ≡ err e))
Result-cases (ok a) = inl (a, refl)
Result-cases (err e) = inr (e, refl)

-- What is known behind a guard that let the run pass.
pub raise_if-eq-ok {ℓ} :
    {E : Type 0} {B : Type ℓ} (b : Bool) (e : E) (k : Result E B) {r : B}
    → (raise_if b e >> k) ≡ ok r
    → (b ≡ false) × (k ≡ ok r)
raise_if-eq-ok true e k h = cc
raise_if-eq-ok false e k h = (refl, h)

pub raise_if_passes {ℓ} :
    {E : Type 0} {B : Type ℓ} (b : Bool) (e : E) (k : Result E B)
    → b ≡ false
    → (raise_if b e >> k) ≡ k
raise_if_passes b e k h = rw h

pub ok-injective {ℓ} :
    {E : Type 0} {A : Type ℓ} (a b : A) → ◌≡◌ {A = Result E A} (ok a) (ok b) → a ≡ b
ok-injective a b h = cc
