-- ===== src/Bencode/Outcome.antt =====
-- What a step of the decoder ends with: a failure the program has, or a result with a property.
use torfoil.Prelude.{Bool, true, false, ◌≡◌, refl, if◌then◌else◌}
use torfoil.Bencode.{Error, Result, ok, err, ◌>>=◌}

-- A failure that the program has, too.
abbrev pub is_own : Error → Bool
is_own Error.out_of_fuel = false
is_own _ = true

-- Every failure but lack of fuel, and every result with the property.
abbrev pub Meets : {A : Type 0} → (A → Type 0) → Result A → Type 0
Meets P (ok a) = P a
Meets P (err e) = is_own e ≡ true

pub record Ends {A : Type 0} (P : A → Type 0) (r : Result A) : Type 0 where
  pub outcome : Meets P r

module _ {A : Type 0} {P : A → Type 0} where
  pub Ends-ok : {a : A} → P a → Ends P (ok a)
  Ends-ok h = record { outcome = h }

  pub Ends-err : {e : Error} → is_own e ≡ true → Ends P (err e)
  Ends-err h = record { outcome = h }

  pub Ends-if :
      (test : Bool) {x y : Result A} → Ends P x → Ends P y → Ends P (if test then x else y)
  Ends-if true hx hy = hx
  Ends-if false hx hy = hy

  pub Ends-test :
      {test : Bool} {x y : Result A}
      → (test ≡ true → Ends P x)
      → (test ≡ false → Ends P y)
      → Ends P (if test then x else y)
  Ends-test {test = true} hx hy = hx refl
  Ends-test {test = false} hx hy = hy refl

  pub Ends-mono : {Q : A → Type 0} {r : Result A} → ((a : A) → P a → Q a) → Ends P r → Ends Q r
  Ends-mono {r = ok a} weaken h = record { outcome = weaken a h.outcome }
  Ends-mono {r = err e} weaken h = record { outcome = h.outcome }

  pub Ends-bind :
      {B : Type 0} {Q : B → Type 0} {r : Result A} {f : A → Result B}
      → Ends P r
      → ((a : A) → P a → Ends Q (f a))
      → Ends Q (r >>= f)
  Ends-bind {r = ok a} h next = next a h.outcome
  Ends-bind {r = err e} h next = record { outcome = h.outcome }
