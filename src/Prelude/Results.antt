-- ===== src/Prelude/Results.antt =====
-- Calls that may throw, as values, with the rules by which a call is shown to return.
use mathlib.Core.Path.{◌≡◌, refl, sym}
use mathlib.Core.Logic.{◌≢◌}
use mathlib.Core.Option.{Option, none, some}

-- What is thrown, or the undefined behaviour that is reached.
pub data Error : Type 0 where
  -- SEAL refuses an argument (`std::invalid_argument`, `std::logic_error`)
  seal_error : Error
  -- `std::runtime_error`: a name that is not registered, an unreadable model file
  runtime_error : Error
  -- an access behind the end of an array or a vector, which is undefined in C++
  out_of_range : Error
  -- `STDSC_THROW_INVPARAM`, `STDSC_THROW_FILE` and `STDSC_THROW_FAILURE`
  invalid_param file_error failure : Error

pub data Result {ℓ} (A : Type ℓ) : Type ℓ where
  ok : A → Result A
  err : Error → Result A

pub ok≢err {ℓ} : {A : Type ℓ} {a : A} {e : Error} → ok a ≢ err e
ok≢err h = cc

infixl 5 ◌>>=◌
abbrev pub ◌>>=◌ {ℓ κ} : {A : Type ℓ} {B : Type κ} → Result A → (A → Result B) → Result B
ok x >>= next = next x
err thrown >>= next = err thrown

abbrev pub or_throw {ℓ} : {A : Type ℓ} → Error → Option A → Result A
or_throw e none = err e
or_throw e (some a) = ok a

-- The call returns, and what it returns satisfies the predicate.
abbrev pub Returns {ℓ κ} : {A : Type ℓ} → Result A → (A → Type κ) → Type (ℓ ⊔ κ)
Returns {A} r P = (a : A) × (r ≡ ok a) × P a

pub Returns-ok {ℓ κ} : {A : Type ℓ} (P : A → Type κ) (a : A) → P a → Returns (ok a) P
Returns-ok P a p = (a, refl, p)

pub Returns->>= {ℓ ℓ' κ κ'} :
    {A : Type ℓ} {B : Type ℓ'} {P : A → Type κ} {Q : B → Type κ'} (m : Result A) (f : A → Result B)
    → Returns m P
    → ((a : A) → P a → Returns (f a) Q)
    → Returns (m >>= f) Q
Returns->>= m f (a, e, p) k = let (b, e', q) = k a p in (b, rw e e', q)

pub Returns_weaken {ℓ κ κ'} :
    {A : Type ℓ} {P : A → Type κ} {Q : A → Type κ'} {m : Result A}
    → Returns m P
    → ((a : A) → P a → Q a)
    → Returns m Q
Returns_weaken (a, e, p) k = (a, e, k a p)

pub ok_inj {ℓ} : {A : Type ℓ} {x y : A} → ok x ≡ ok y → x ≡ y
ok_inj e = cc

-- What a chain that throws nothing has gone through.
pub >>=-inv {ℓ κ} :
    {A : Type ℓ} {B : Type κ} (r : Result A) (next : A → Result B) (b : B)
    → (r >>= next) ≡ ok b
    → (a : A) × (r ≡ ok a) × (next a ≡ ok b)
>>=-inv (ok a) next b e = (a, refl, e)
>>=-inv (err thrown) next b e = absurd (ok≢err (sym e))
