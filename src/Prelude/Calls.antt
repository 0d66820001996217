-- ===== src/Prelude/Calls.antt =====
-- What a call of C code comes to: it returns, it touches memory out of bounds, or it calls abort().
use mathlib.Core.Bool.{Bool, true, false}
use mathlib.Core.Option.{Option, none, some}
use Prim.Native.Nat.{ℕ}
use hassio_installer.Prelude.Lists.{Bytes, get_elem?, store}

pub data Outcome {ℓ} (A : Type ℓ) : Type ℓ where
  done : A → Outcome A
  fault : Outcome A
  aborted : Outcome A

infixl 5 ◌>>=◌ ◌>>◌
abbrev pub ◌>>=◌ {ℓ κ} : {A : Type ℓ} {B : Type κ} → Outcome A → (A → Outcome B) → Outcome B
done a >>= f = f a
fault >>= f = fault
aborted >>= f = aborted

abbrev pub ◌>>◌ {ℓ} : {B : Type ℓ} → Outcome (Unit {0}) → Outcome B → Outcome B
m >> k = m >>= λ _. k

-- `if (!(cond)) abort()`
abbrev pub assert : Bool → Outcome (Unit {0})
assert true = done tt
assert false = aborted

-- An access with no cell behind it is a fault.
abbrev pub access {ℓ} : {A : Type ℓ} → Option A → Outcome A
access none = fault
access (some a) = done a

abbrev pub read : Bytes → ℕ → Outcome ℕ
read m i = access (get_elem? m i)

abbrev pub write : Bytes → ℕ → ℕ → Outcome Bytes
write m i v = access (store i v m)
