-- ===== src/Base/Fault.antt =====
-- Code that can go wrong: a value, a panic of the program, or undefined behaviour.
use mathlib.Core.Bool.{Bool, true, false}
use mathlib.Core.Option.{Option, none, some}
use mathlib.Core.Path.{◌≡◌, refl}
use mathlib.Core.Logic.{◌≢◌, ◌⊎◌, inl, inr}

-- `panic` is an `assert!`, `expect` or `unreachable!` that fires; `ub` is a use of memory that the
-- `unsafe` code may not make (outside an allocation, not initialised, after it was freed).
-- `out_of_fuel` is no behaviour of the program: a loop of the model has used up its rounds.
pub data Fault : Type 0 where
  panic ub out_of_fuel : Fault

pub data Exec {ℓ} (A : Type ℓ) : Type ℓ where
  done : A → Exec A
  fault : Fault → Exec A

pub done_injective {ℓ} : {A : Type ℓ} {a b : A} → done a ≡ done b → a ≡ b
done_injective e = cc

pub done≢fault {ℓ} : {A : Type ℓ} {a : A} {e : Fault} → done a ≢ fault e
done≢fault e = cc

infixl 5 ◌>>=◌ ◌>>◌
abbrev pub ◌>>=◌ {ℓ κ} : {A : Type ℓ} {B : Type κ} → Exec A → (A → Exec B) → Exec B
done a >>= f = f a
fault e >>= f = fault e

abbrev pub ◌>>◌ {κ} : {B : Type κ} → Exec (Unit {0}) → Exec B → Exec B
done u >> k = k
fault e >> k = fault e

-- `assert!` and `debug_assert!`
abbrev pub assert : Bool → Exec (Unit {0})
assert true = done tt
assert false = fault panic

-- `expect` and `unwrap`
abbrev pub expect {ℓ} : {A : Type ℓ} → Option A → Exec A
expect none = fault panic
expect (some a) = done a

-- a use of memory that is fine only where the option has a value
abbrev pub access {ℓ} : {A : Type ℓ} → Option A → Exec A
access none = fault ub
access (some a) = done a

-- `Result<A, E>`
pub data Result {ℓ κ} (A : Type ℓ) (E : Type κ) : Type (ℓ ⊔ κ) where
  ok : A → Result A E
  err : E → Result A E

pub Exec-cases {ℓ} :
    {A : Type ℓ} (m : Exec A) → ((a : A) × (m ≡ done a)) ⊎ ((e : Fault) × (m ≡ fault e))
Exec-cases (done a) = inl (a, refl)
Exec-cases (fault e) = inr (e, refl)
