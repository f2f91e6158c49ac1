-- ===== src/Prelude/Result.antt =====
-- A computation that returns, or raises an exception with this text.
use Prim.Native.String.{String}
use mathlib.Core.Path.{◌≡◌, refl}
use mathlib.Core.Bool.{Bool, true, false}

pub data Result {ℓ} (A : Type ℓ) : Type ℓ where
  ok : A → Result A
  err : String → Result A

infixl 5 ◌>>=◌ ◌>>◌
abbrev pub ◌>>=◌ {ℓ κ} : {A : Type ℓ} {B : Type κ} → Result A → (A → Result B) → Result B
ok a >>= k = k a
err e >>= k = err e

abbrev pub ◌>>◌ {ℓ} : {B : Type ℓ} → Result (Unit {0}) → Result B → Result B
m >> r = m >>= λ _. r

-- Raise unless the test holds.
abbrev pub unless : Bool → String → Result (Unit {0})
unless true e = ok tt
unless false e = err e

-- What holds of the value, where there is one.
abbrev pub Holds {ℓ κ} : {A : Type ℓ} → (A → Type κ) → Result A → Type κ
Holds P (ok a) = P a
Holds P (err e) = Unit

pub bind-Holds {ℓ κ} :
    {A : Type 0} {B : Type ℓ} (P : B → Type κ) (m : Result A) (k : A → Result B)
    → ((a : A) → m ≡ ok a → Holds P (k a))
    → Holds P (m >>= k)
bind-Holds P (ok a) k h = h a refl
bind-Holds P (err e) k h = tt
