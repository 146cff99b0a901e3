-- ===== src/Base/Outcomes.antt =====
-- How a piece of C code ends: with a result, waiting for ever on a mutex that is held, or in
-- undefined behaviour (an access outside an object).
use mathlib.Core.Path.{◌≡◌, refl}

pub data Run {ℓ} (A : Type ℓ) : Type ℓ where
  done : A → Run A
  blocked : Run A
  fault : Run A

infixl 5 ◌>>=◌
abbrev pub ◌>>=◌ {ℓ κ} : {A : Type ℓ} {B : Type κ} → Run A → (A → Run B) → Run B
done a >>= k = k a
blocked >>= k = blocked
fault >>= k = fault

-- Inversion of a finished bind, for proofs where the parts stay shut.
pub >>=-eq-done {ℓ κ} :
    {A : Type ℓ} {B : Type κ} (m : Run A) (k : A → Run B) {b : B}
    → (m >>= k) ≡ done b
    → (a : A) × (m ≡ done a) × (k a ≡ done b)
>>=-eq-done (done a) k h = (a, refl, h)
>>=-eq-done blocked k h = cc
>>=-eq-done fault k h = cc

pub done-ne-fault {ℓ} : {A : Type ℓ} {a : A} → done a ≡ fault → ⊥
done-ne-fault h = cc

pub >>=_assoc {ℓ κ μ} :
    {A : Type ℓ} {B : Type κ} {C : Type μ} (m : Run A) (k : A → Run B) (h : B → Run C)
    → (m >>= k >>= h) ≡ (m >>= λ a. k a >>= h)
>>=_assoc (done a) k h = refl
>>=_assoc blocked k h = refl
>>=_assoc fault k h = refl
