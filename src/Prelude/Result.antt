-- ===== src/Prelude/Result.antt =====
-- Code that may panic: a result, or the fault that stops the goroutine.
use mathlib.Core.Path.{◌≡◌, refl, ap}
use mathlib.Core.Logic.{◌⊎◌, inl, inr}
use mathlib.Core.Option.{Option, none, some}

-- The run-time faults that the modelled code can meet.
pub data Fault : Type 0 where
  nil_pointer index_out_of_range slice_out_of_range divide_by_zero explicit_panic : Fault
  -- A type assertion on another type.
  failed_assertion : Fault
  -- The code would go round a loop for ever.
  endless_loop : Fault

pub data Result {ℓ} (A : Type ℓ) : Type ℓ where
  panic : Fault → Result A
  ok : A → Result A

infixl 5 ◌>>=◌
abbrev pub ◌>>=◌ {ℓ κ} : {X : Type ℓ} {Y : Type κ} → Result X → (X → Result Y) → Result Y
panic fault >>= next = panic fault
ok x >>= next = next x

-- A read that faults where there is nothing.
abbrev pub or_panic {ℓ} : {A : Type ℓ} → Fault → Option A → Result A
or_panic e none = panic e
or_panic e (some a) = ok a

pub or_panic-eq-ok {ℓ} :
    {A : Type ℓ} (e : Fault) (o : Option A) {a : A} → or_panic e o ≡ ok a → o ≡ some a
or_panic-eq-ok e none h = cc
or_panic-eq-ok e (some a) h = cc

pub Result-cases {ℓ} :
    {A : Type ℓ} (r : Result A) → ((a : A) × (r ≡ ok a)) ⊎ ((e : Fault) × (r ≡ panic e))
Result-cases (ok a) = inl (a, refl)
Result-cases (panic e) = inr (e, refl)

pub >>=-eq-ok {ℓ κ} :
    {X : Type ℓ} {Y : Type κ} (r : Result X) (next : X → Result Y) {b : Y}
    → (r >>= next) ≡ ok b
    → (x : X) × (r ≡ ok x) × (next x ≡ ok b)
>>=-eq-ok (panic fault) next h = cc
>>=-eq-ok (ok x) next h = (x, refl, h)

pub >>=-ok {ℓ κ} :
    {A : Type ℓ} {B : Type κ} (m : Result A) (f : A → Result B) {a : A} → m ≡ ok a → (m >>= f) ≡ f a
>>=-ok m f h = ap (λ r. r >>= f) h
