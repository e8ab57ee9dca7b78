-- ===== src/Prelude/Outcome.antt =====
-- What a call into the kernel can come to. `panic()` spins for ever and `fault` is an access through
-- a null pointer or out of an array; `stuck` is a loop that has used up its fuel.
use mathlib.Core.Option.{Option, none, some}
use mathlib.Core.Bool.{true, false}
use native.Mathlib.Omega.{arith}
use mathlib.Core.Path.{◌≡◌, refl}

pub data Run {ℓ} (A : Type ℓ) : Type ℓ where
  ok : A → Run A
  panicked : Run A
  fault : Run A
  stuck : Run A

infixl 5 ◌>>=◌ ◌>>◌
abbrev pub ◌>>=◌ {ℓ κ} : {A : Type ℓ} {B : Type κ} → Run A → (A → Run B) → Run B
ok a >>= f = f a
panicked >>= f = panicked
fault >>= f = fault
stuck >>= f = stuck

abbrev pub ◌>>◌ {ℓ} : {B : Type ℓ} → Run (Unit {0}) → Run B → Run B
m >> k = m >>= λ _. k

-- A read through a pointer that may be null.
abbrev pub deref {ℓ} : {A : Type ℓ} → Option A → Run A
deref none = fault
deref (some a) = ok a

-- The call comes to an end, and if it returns then with a value of which `P` holds.
abbrev pub Ends {ℓ} : {A : Type ℓ} → (A → Type 0) → Run A → Type 0
Ends P (ok a) = P a
Ends P panicked = true ≡ true
Ends P fault = true ≡ true
Ends P stuck = false ≡ true

pub Ends-bind {ℓ κ} :
    {A : Type ℓ} {B : Type κ} (P : A → Type 0) (Q : B → Type 0) (m : Run A) (f : A → Run B)
    → Ends P m
    → ((a : A) → P a → Ends Q (f a))
    → Ends Q (m >>= f)
Ends-bind P Q (ok a) f h k = k a h
Ends-bind P Q panicked f h k = refl
Ends-bind P Q fault f h k = refl
Ends-bind P Q stuck f h k = absurd (ground arith)

module _ {ℓ κ μ} {A : Type ℓ} {B : Type κ} {C : Type μ} where
  pub >>=-assoc :
      (m : Run A) (f : A → Run B) (g : B → Run C) → (m >>= f >>= g) ≡ (m >>= λ a. f a >>= g)
  >>=-assoc (ok a) f g = refl
  >>=-assoc panicked f g = refl
  >>=-assoc fault f g = refl
  >>=-assoc stuck f g = refl

module _ {ℓ κ} {A : Type ℓ} {B : Type κ} where
  pub >>=-ext : (m : Run A) (f g : A → Run B) → ((a : A) → f a ≡ g a) → (m >>= f) ≡ (m >>= g)
  >>=-ext (ok a) f g h = h a
  >>=-ext panicked f g h = refl
  >>=-ext fault f g h = refl
  >>=-ext stuck f g h = refl
