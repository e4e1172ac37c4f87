-- ===== src/Prelude/Results.antt =====
-- Results of code that may raise: a value, or the exception.
use mathlib.Core.Path.{◌≡◌, refl}

pub data Result {ℓ κ} (E : Type ℓ) (A : Type κ) : Type (ℓ ⊔ κ) where
  ok : A → Result E A
  err : E → Result E A

-- The first exception ends a chain.
infixl 5 ◌>>=◌ ◌>>◌
abbrev pub ◌>>=◌ {ℓ κ μ} :
    {E : Type ℓ} {A : Type κ} {B : Type μ} → Result E A → (A → Result E B) → Result E B
err exception >>= next = err exception
ok value >>= next = next value

abbrev pub ◌>>◌ {ℓ κ μ} :
    {E : Type ℓ} {A : Type κ} {B : Type μ} → Result E A → Result E B → Result E B
m >> next = m >>= λ _. next

-- A successful chain, taken apart.
pub >>=-eq-ok {ℓ κ μ} :
    {E : Type ℓ} {A : Type κ} {B : Type μ} (m : Result E A) (next : A → Result E B) {result : B}
    → (m >>= next) ≡ ok result
    → (value : A) × (m ≡ ok value) × (next value ≡ ok result)
>>=-eq-ok (err exception) next returned = cc
>>=-eq-ok (ok value) next returned = (value, refl, returned)

pub >>-eq-ok {ℓ κ μ} :
    {E : Type ℓ} {A : Type κ} {B : Type μ} (m : Result E A) (next : Result E B) {result : B}
    → (m >> next) ≡ ok result
    → (value : A) × (m ≡ ok value) × (next ≡ ok result)
>>-eq-ok m next returned = >>=-eq-ok m (λ _. next) returned
