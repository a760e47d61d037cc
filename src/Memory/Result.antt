-- ===== src/Memory/Result.antt =====
-- Results of C code that may go wrong.
use mathlib.Core.Path.{◌≡◌, refl, ap, subst}
use daux4pcs2m.Base.{Bool, true, false, if◌then◌else◌}
use mathlib.Core.Option.{Option, none, some, some-injective}

pub data Fault : Type 0 where
  -- an index past the end of an array, or below its start
  out_of_bounds : Fault
  -- an access through a null pointer
  null_access : Fault
  -- an access through a pointer after `free`, and a second `free`
  dangling_access : Fault
  double_free : Fault
  -- an int that leaves its range, and a division of ints by zero
  overflow : Fault
  -- memory is used that was never written
  uninitialised : Fault
  division_by_zero : Fault
  -- `exit`, with its status
  exited : Fault
  -- the fuel of a loop of the model has run out
  unfinished : Fault

pub data Result {ℓ} (A : Type ℓ) : Type ℓ where
  ok : A → Result A
  err : Fault → Result A

abbrev pub or_fault {ℓ} : {A : Type ℓ} → Fault → Option A → Result A
or_fault e none = err e
or_fault e (some a) = ok a

module _ {ℓ κ} {A : Type ℓ} {B : Type κ} where
  infixl 5 ◌>>=◌
  -- The second step, on the value of the first, if there is one.
  abbrev pub ◌>>=◌ : Result A → (A → Result B) → Result B
  err fault >>= next = err fault
  ok value >>= next = next value

  -- When both steps together succeed, so does each of them.
  pub >>=-eq-ok :
      (first : Result A) (next : A → Result B) {out : B}
      → (first >>= next) ≡ ok out
      → (value : A) × (first ≡ ok value) × (next value ≡ ok out)
  >>=-eq-ok (err fault) next e = cc
  >>=-eq-ok (ok value) next e = (value, refl, e)

module _ {ℓ κ μ} {A : Type ℓ} {B : Type κ} {C : Type μ} where
  -- Two steps behind the first one that agree with a single one.
  pub >>=-nested :
      (first : Result A) (next : A → Result B) (last : B → Result C) (other : A → Result C)
      → ((value : A) → (next value >>= last) ≡ other value)
      → (first >>= next >>= last) ≡ (first >>= other)
  >>=-nested (err fault) next last other same = refl
  >>=-nested (ok value) next last other same = same value

module _ {ℓ} {A : Type ℓ} where
  value_of : Result A → Option A
  value_of (err fault) = none
  value_of (ok value) = some value

  pub ok-injective : {x y : A} → ok x ≡ ok y → x ≡ y
  unfolding value_of
  ok-injective e = some-injective _ _ (ap value_of e)

  fault_of : Result A → Option Fault
  fault_of (err fault) = some fault
  fault_of (ok value) = none

  pub err-injective : {d e : Fault} → ◌≡◌ {A = Result A} (err d) (err e) → d ≡ e
  unfolding fault_of
  err-injective q = some-injective _ _ (ap fault_of q)

-- The result is a value, with a property of it.
pub record Ends {ℓ κ} {A : Type ℓ} (P : A → Type κ) (r : Result A) : Type (ℓ ⊔ κ) where
  pub value : A
  pub returns : r ≡ ok value
  pub holds : P value

pub Ends-ok {ℓ κ} : {A : Type ℓ} {P : A → Type κ} (a : A) → P a → Ends P (ok a)
Ends-ok a p = record { value = a; returns = refl; holds = p }

-- Whatever is returned has a property.
pub record Always {ℓ κ} {A : Type ℓ} (P : A → Type κ) (r : Result A) : Type (ℓ ⊔ κ) where
  pub always : (a : A) → r ≡ ok a → P a

pub Always-ok {ℓ κ} : {A : Type ℓ} {P : A → Type κ} (a : A) → P a → Always P (ok a)
Always-ok {P = P} a p = record { always = λ b e. subst P (ok-injective e) p }

-- A step, and the rest for each value that it returns.
pub Always->>= {ℓ κ ι} :
    {A : Type ℓ} {B : Type κ} {P : B → Type ι} (r : Result A) (next : A → Result B)
    → ((a : A) → r ≡ ok a → Always P (next a))
    → Always P (r >>= next)
Always->>= (err fault) next h = record { always = λ b e. cc }
Always->>= (ok a) next h = h a refl

pub Always-if {ℓ κ} :
    {A : Type ℓ} {P : A → Type κ} (b : Bool) {r s : Result A}
    → Always P r
    → Always P s
    → Always P (if b then r else s)
Always-if true p q = p
Always-if false p q = q
