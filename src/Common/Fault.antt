-- ===== src/Common/Fault.antt =====
-- What a kernel routine ends in: a value, or the stop of a failed KASSERT or a call of panic.
use mathlib.Core.Path.{◌≡◌, refl}
use mathlib.Core.Bool.{Bool, true, false}

pub data Kernel {ℓ} (A : Type ℓ) : Type ℓ where
  done : A → Kernel A
  panic : Kernel A

infixl 5 ◌>>=◌ ◌>>◌
abbrev pub ◌>>=◌ {ℓ κ} : {A : Type ℓ} {B : Type κ} → Kernel A → (A → Kernel B) → Kernel B
done a >>= f = f a
panic >>= f = panic

abbrev pub ◌>>◌ {ℓ} : {B : Type ℓ} → Kernel (Unit {0}) → Kernel B → Kernel B
m >> k = m >>= λ _. k

-- KASSERT
abbrev pub kassert : Bool → Kernel (Unit {0})
kassert true = done tt
kassert false = panic

-- Inversion of a routine that came to its end.
pub >>=-eq-done {ℓ κ} :
    {A : Type ℓ} {B : Type κ} (m : Kernel A) (f : A → Kernel B) {b : B}
    → (m >>= f) ≡ done b
    → (a : A) × (m ≡ done a) × (f a ≡ done b)
>>=-eq-done (done a) f h = (a, refl, h)
>>=-eq-done panic f h = cc
