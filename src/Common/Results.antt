-- ===== src/Common/Results.antt =====
-- What a function of the kernel comes back with: a value, or the reason why it does not. A failed
-- `ASSERT` and a `runtime::panic` both stop the machine; `ErrorOr<T>` returns an `ErrorCode`.
use mathlib.Core.Path.{◌≡◌, refl}
use mathlib.Core.Logic.{◌⊎◌, inl, inr}
use mathlib.Core.Bool.{Bool, true, false}

pub data Result {ℓ κ} (E : Type κ) (A : Type ℓ) : Type (ℓ ⊔ κ) where
  ok : A → Result E A
  err : E → Result E A

pub data Fault : Type 0 where
  assertion panic : Fault

infixl 5 ◌>>=◌ ◌>>◌
abbrev pub ◌>>=◌ {ℓ ℓ' κ} :
    {E : Type κ} {A : Type ℓ} {B : Type ℓ'} → Result E A → (A → Result E B) → Result E B
ok a >>= f = f a
err e >>= f = err e

abbrev pub ◌>>◌ {ℓ κ} : {E : Type κ} {B : Type ℓ} → Result E (Unit {0}) → Result E B → Result E B
m >> k = m >>= λ _. k

-- `ASSERT(b)` with `e` an assertion, `if (!b) return e` with `e` an error code.
abbrev pub guard {κ} : {E : Type κ} → Bool → E → Result E (Unit {0})
guard true e = ok tt
guard false e = err e

pub Result-cases {ℓ κ} :
    {E : Type κ} {A : Type ℓ} (r : Result E A) → ((a : A) × (r ≡ ok a)) ⊎ ((e : E) × (r ≡ err e))
Result-cases (ok a) = inl (a, refl)
Result-cases (err e) = inr (e, refl)
