-- ===== src/Base/Results.antt =====
-- Runs that may fault, in place of aborts and undefined behaviour of the C++ code.
use mathlib.Core.Path.{◌≡◌, refl, subst}
use mathlib.Core.Bool.{Bool, true, false}
use Prim.Native.Nat.{ℕ}
use mathlib.Core.Option.{Option, none, some}
use mathlib.Core.List.{List}
use rt_debug_lib.Base.Lists.{get_elem?}

-- `assert_failed`: an ASSERT whose test is false, which aborts the process.
-- `out_of_bounds`: an access outside the array or the mapped object that is meant.
-- `null_deref`, `wild_pointer`: an access through NULL or through a pointer into another mapping.
-- `div_by_zero`: `%` or `/` by 0.
-- `unterminated`: a read of a char array without a NUL as a C string.
-- `spins`: a spinlock is taken that is never released.
-- `out_of_fuel`: a loop ran longer than the bound that the model gives it.
pub data Fault : Type 0 where
  assert_failed out_of_bounds null_deref wild_pointer : Fault
  div_by_zero unterminated spins out_of_fuel : Fault

pub data Result {ℓ} (A : Type ℓ) : Type ℓ where
  ok : A → Result A
  err : Fault → Result A

-- The rest of a run is left out after a fault.
infixl 5 ◌>>=◌ ◌>>◌
abbrev pub ◌>>=◌ {ℓ κ} : {A : Type ℓ} {B : Type κ} → Result A → (A → Result B) → Result B
err fault >>= rest = err fault
ok result >>= rest = rest result

abbrev pub ◌>>◌ {ℓ} : {B : Type ℓ} → Result (Unit {0}) → Result B → Result B
first >> rest = first >>= λ _. rest

-- ASSERT(b)
abbrev pub assert : Bool → Result (Unit {0})
assert true = ok tt
assert false = err Fault.assert_failed

-- A test of the model for what would be undefined behaviour.
abbrev pub require : Bool → Fault → Result (Unit {0})
require true e = ok tt
require false e = err e

abbrev pub or_fault {ℓ} : {A : Type ℓ} → Option A → Fault → Result A
or_fault none e = err e
or_fault (some a) e = ok a

-- a[i]
abbrev pub at {ℓ} : {A : Type ℓ} → List A → ℕ → Result A
at xs i = or_fault (get_elem? xs i) Fault.out_of_bounds

-- The run comes to an end with no fault, and its result meets `P`.
abbrev pub Returns {ℓ κ} : {A : Type ℓ} → Result A → (A → Type κ) → Type κ
Returns (ok a) P = P a
Returns (err e) P = ⊥ × Unit {κ}

abbrev pub map_ok {ℓ κ} : {A : Type ℓ} {B : Type κ} → (A → B) → Result A → Result B
map_ok f (ok a) = ok (f a)
map_ok f (err e) = err e

-- A run whose result is known has that result's properties.
pub Returns_of_ok {ℓ κ} :
    {A : Type ℓ} (P : A → Type κ) {r : Result A} {a b : A} → r ≡ ok a → r ≡ ok b → P a → P b
Returns_of_ok P run e p = subst P (cc) p

pub ok-ne-err {ℓ} : {A : Type ℓ} {r : Result A} {a : A} {f : Fault} → r ≡ err f → r ≡ ok a → ⊥
ok-ne-err fails e = cc

-- The result of a run that returns.
pub Returns-result {ℓ κ} :
    {A : Type ℓ} (r : Result A) (P : A → Type κ) → Returns r P → (a : A) × (r ≡ ok a) × P a
Returns-result (ok a) P h = (a, refl, h)
Returns-result (err e) P h = absurd h.0
