-- ===== src/Prelude/Fail.antt =====
-- Results of code that fails with a message.
use mathlib.Core.Path.{◌≡◌, refl}
use mathlib.Core.Bool.{Bool, true, false}

pub data Try {ℓ κ} (E : Type ℓ) (A : Type κ) : Type (ℓ ⊔ κ) where
  fail : E → Try E A
  done : A → Try E A

infixl 5 ◌>>=◌
abbrev pub ◌>>=◌ {ℓ κ ι} :
    {E : Type ℓ} {A : Type κ} {B : Type ι} → Try E A → (A → Try E B) → Try E B
fail e >>= f = fail e
done a >>= f = f a

-- An early return.
abbrev pub unless {ℓ κ} : {E : Type ℓ} {A : Type κ} → Bool → E → Try E A → Try E A
unless true e rest = fail e
unless false e rest = rest

module _ {ℓ κ} {E : Type ℓ} {A : Type κ} where
  pub >>=-done {ι} :
      {B : Type ι} (m : Try E A) (f : A → Try E B) {b : B}
      → (m >>= f) ≡ done b
      → (a : A) × (m ≡ done a) × (f a ≡ done b)
  >>=-done (fail e) f h = cc
  >>=-done (done a) f h = (a, refl, h)

  pub unless-done :
      (test : Bool) (e : E) (rest : Try E A) {a : A}
      → unless test e rest ≡ done a
      → (test ≡ false) × (rest ≡ done a)
  unless-done true e rest h = cc
  unless-done false e rest h = (refl, h)

-- What holds of every result.
abbrev pub Meets : {E A : Type 0} → (A → Type 0) → Try E A → Type 0
Meets P (fail e) = Unit
Meets P (done a) = P a

pub record Gives {E A : Type 0} (P : A → Type 0) (r : Try E A) : Type 0 where
  pub outcome : Meets P r

module _ {E A : Type 0} {P : A → Type 0} where
  pub Gives-done : {a : A} → P a → Gives {E = E} P (done a)
  Gives-done h = record { outcome = h }

  pub Gives-fail : {e : E} → Gives P (fail e)
  Gives-fail = record { outcome = tt }

  pub Gives-of : (r : Try E A) → ((a : A) → r ≡ done a → P a) → Gives P r
  Gives-of (fail e) h = Gives-fail
  Gives-of (done a) h = Gives-done (h a refl)

  pub Gives-unless :
      (test : Bool) (e : E) {r : Try E A} → (test ≡ false → Gives P r) → Gives P (unless test e r)
  Gives-unless true e h = Gives-fail
  Gives-unless false e h = h refl

  pub Gives-mono : {Q : A → Type 0} {r : Try E A} → ((a : A) → P a → Q a) → Gives P r → Gives Q r
  Gives-mono {r = fail e} weaken h = record { outcome = tt }
  Gives-mono {r = done a} weaken h = record { outcome = weaken a h.outcome }

  pub Gives-bind :
      {B : Type 0} {Q : B → Type 0} {r : Try E A} {f : A → Try E B}
      → Gives P r
      → ((a : A) → P a → Gives Q (f a))
      → Gives Q (r >>= f)
  Gives-bind {r = fail e} h next = record { outcome = tt }
  Gives-bind {r = done a} h next = next a h.outcome
