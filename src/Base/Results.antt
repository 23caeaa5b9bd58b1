-- ===== src/Base/Results.antt =====
-- The result of code that can return an `ErrorCode` or panic, and of code that also changes the
-- world of the kernel (`Svc`). An `ErrorCode` is its number, as in `repr(transparent)`.
use Prim.Native.Nat.{ℕ}

pub data Outcome {ℓ} (A : Type ℓ) : Type ℓ where
  ok : A → Outcome A
  err : ℕ → Outcome A
  panic : Outcome A

infixl 5 ◌>>=◌
abbrev pub ◌>>=◌ {ℓ κ} : {A : Type ℓ} {B : Type κ} → Outcome A → (A → Outcome B) → Outcome B
ok a >>= f = f a
err e >>= f = err e
panic >>= f = panic

-- `core::result::Result` with an error type of its own.
pub data Result {ℓ κ} (A : Type ℓ) (E : Type κ) : Type (ℓ ⊔ κ) where
  okay : A → Result A E
  fail : E → Result A E
