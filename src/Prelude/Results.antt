-- ===== src/Prelude/Results.antt =====
-- Fallible results: `Result<T, E>` with `?` as the bind of a `do` block.
use mathlib.Core.Path.{◌≡◌, refl}
use mathlib.Core.Logic.{◌⊎◌, inl, inr}
use mathlib.Core.Bool.{Bool, true, false}
use mathlib.Core.Option.{Option, none, some}

pub data Result {ℓ κ} (E : Type κ) (A : Type ℓ) : Type (ℓ ⊔ κ) where
  ok : A → Result E A
  err : E → Result E A

-- An early `return Err(e)`: the error where the test holds.
abbrev pub reject {κ} : {E : Type κ} → Bool → E → Result E (Unit {0})
reject true e = err e
reject false e = ok tt

abbrev pub ok_or {ℓ κ} : {E : Type κ} {A : Type ℓ} → Option A → E → Result E A
ok_or none e = err e
ok_or (some a) e = ok a

-- `?` hands an error on and gives the rest of the function the value.
infixl 5 ◌>>=◌
abbrev pub ◌>>=◌ {ℓ μ κ} :
    {E : Type κ} {A : Type ℓ} {B : Type μ} → Result E A → (A → Result E B) → Result E B
err e >>= rest = err e
ok a >>= rest = rest a

infixl 5 ◌>>◌
abbrev pub ◌>>◌ {μ κ} : {E : Type κ} {B : Type μ} → Result E (Unit {0}) → Result E B → Result E B
check >> rest = check >>= λ t. rest

-- What a chain that succeeds has passed through: its first step succeeded, and so did what follows.
abbrev pub Passed {ℓ μ κ} :
    {E : Type κ} {A : Type ℓ} {B : Type μ} → Result E A → (A → Result E B) → B → Type (ℓ ⊔ μ ⊔ κ)
Passed {A = A} m rest b = (x : A) × (m ≡ ok x) × (rest x ≡ ok b)

pub >>=-eq-ok {ℓ μ κ} :
    {E : Type κ} {A : Type ℓ} {B : Type μ} (m : Result E A) (rest : A → Result E B) {b : B}
    → (m >>= rest) ≡ ok b
    → Passed m rest b
>>=-eq-ok (err e) rest passed = cc
>>=-eq-ok (ok x) rest passed = (x, refl, passed)

-- A chain that passes a check has a test that fails.
pub reject-eq-ok {μ κ} :
    {E : Type κ} {B : Type μ} (test : Bool) (e : E) (rest : Result E B) {b : B}
    → (reject test e >> rest) ≡ ok b
    → (test ≡ false) × (rest ≡ ok b)
reject-eq-ok true e rest h = cc
reject-eq-ok false e rest h = (refl, h)

pub Result-cases {ℓ κ} :
    {E : Type κ} {A : Type ℓ} (r : Result E A) → ((e : E) × (r ≡ err e)) ⊎ ((a : A) × (r ≡ ok a))
Result-cases (err e) = inl (e, refl)
Result-cases (ok a) = inr (a, refl)
