-- ===== src/Result.antt =====
-- The outcome of C code: a value, or the way in which the process goes wrong.
use remote_file_procedure_ca.Prelude.{◌≡◌, refl, Bool, true, false}

-- `assertion`: an `assert` fails and the process aborts. `bad_memory`: a NULL pointer is followed,
-- or an access leaves its block. `uninitialised`: a number is used that no code has written.
-- `blocked` is a loop that still waits for the kernel where the list of its events ends.
-- `out_of_fuel` is the model's own, and stands for no outcome of the program.
pub data Fault : Type 0 where
  assertion bad_memory uninitialised blocked out_of_fuel : Fault

pub data Result {ℓ} (A : Type ℓ) : Type ℓ where
  ok : A → Result A
  err : Fault → Result A

-- `if (!test) fault`
abbrev pub require : Bool → Fault → Result (Unit {0})
require false fault = err fault
require true fault = ok tt

-- Behind a fault the rest does not run.
infixl 5 ◌>>=◌ ◌>>◌
abbrev pub ◌>>=◌ {ℓ κ} : {A : Type ℓ} {B : Type κ} → Result A → (A → Result B) → Result B
err fault >>= rest = err fault
ok value >>= rest = rest value

abbrev pub ◌>>◌ {ℓ κ} : {A : Type ℓ} {B : Type κ} → Result A → Result B → Result B
err fault >> rest = err fault
ok value >> rest = rest

-- Where the function returns, its value is as `P` says.
abbrev pub Returns : {A : Type 0} → (A → Type 0) → Result A → Type 0
Returns P (ok a) = P a
Returns P (err fault) = Unit

pub Returns-bind :
    {A B : Type 0} (P : A → Type 0) (Q : B → Type 0) (m : Result A) (rest : A → Result B)
    → Returns P m
    → ((a : A) → P a → Returns Q (rest a))
    → Returns Q (m >>= rest)
Returns-bind P Q (ok a) rest h next = next a h
Returns-bind P Q (err fault) rest h next = tt

pub Returns-require :
    {A : Type 0} (P : A → Type 0) (test : Bool) (fault : Fault) (m : Result A)
    → Returns P m
    → Returns P (require test fault >> m)
Returns-require P true fault m h = h
Returns-require P false fault m h = tt

-- Of the first value nothing is needed.
pub Returns-then :
    {A B : Type 0} (Q : B → Type 0) (m : Result A) (rest : A → Result B)
    → ((a : A) → Returns Q (rest a))
    → Returns Q (m >>= rest)
Returns-then Q (ok a) rest next = next a
Returns-then Q (err fault) rest next = tt

-- There is a value.
abbrev pub IsOk : {A : Type 0} → Result A → Type 0
IsOk {A = A} m = (a : A) × (m ≡ ok a)

pub bind-IsOk : {A B : Type 0} (m : Result A) (f : A → B) → IsOk m → IsOk (m >>= λ a. ok (f a))
bind-IsOk m f (a, e) = (f a, rw e refl)
