-- ===== src/Svc/Timeout.antt =====
-- `Timeout` of src/svc.rs, an i64 as its 64-bit pattern, and `SystemTick` arithmetic of
-- src/sync.rs that makes one.
use ctru_rt.Base.{ℕ, ◌⊎◌, ◌+◌, ◌-◌, ◌*◌, ◌/◌, ◌^◌, ◌<◌, ◌≤◌, ◌≡◌, ◌≢◌, max, arith, u32, u64}

unfoldable pub from_nanoseconds : ℕ → ℕ
from_nanoseconds nanoseconds = nanoseconds

-- The product of release builds: it wraps.
unfoldable pub from_seconds : ℕ → ℕ
from_seconds seconds = u64 (seconds * 1_000_000_000)

unfoldable pub forever : ℕ
unfolding from_nanoseconds
forever = from_nanoseconds (2 ^ 63 - 1)

unfoldable pub none : ℕ
unfolding from_nanoseconds
none = from_nanoseconds 0

-- `self.0 as u64 >> 32`
unfoldable pub reg_high : ℕ → ℕ
reg_high timeout = u32 (u64 timeout / 2 ^ 32)

unfoldable pub reg_low : ℕ → ℕ
reg_low timeout = u32 (u64 timeout)

-- `From<Duration>`: what an i64 cannot hold is for ever.
unfoldable pub from_duration : ℕ → ℕ
from_duration as_nanos = elim (Prim.Native.Nat.compare as_nanos (2 ^ 63)) [
  | Prim.Native.Nat.Ordering.lt ↦ from_nanoseconds as_nanos
  | _ ↦ forever
]

-- `From<i64>`
unfoldable pub from_i64 : ℕ → ℕ
unfolding from_nanoseconds
from_i64 nanoseconds = from_nanoseconds nanoseconds

-- `OsMutex::try_lock_until`: u64 subtraction, then `.max(0)`.
unfoldable pub until_deadline : ℕ → ℕ → ℕ
unfolding from_nanoseconds
until_deadline deadline now = from_nanoseconds (max (u64 (deadline + 2 ^ 64 - now)) 0)

-- Of a timeout of 64 bits the two registers give back the whole, and each fits its register.
pub reg_halves :
    (t : ℕ)
    → t < 2 ^ 64
    → (reg_high t * 2 ^ 32 + reg_low t ≡ t) × (reg_high t < 2 ^ 32) × (reg_low t < 2 ^ 32)
unfolding reg_high reg_low
reg_halves t h = omega arith

-- `Duration::as_nanos` below 2^63 is kept; anything longer saturates at `forever`. No conversion
-- gives a negative i64.
pub from_duration_lem :
    (d : ℕ)
    → ((d < 2 ^ 63) × (from_duration d ≡ d) ⊎ (2 ^ 63 ≤ d) × (from_duration d ≡ forever))
      × (from_duration d < 2 ^ 63)
unfolding from_duration forever from_nanoseconds
from_duration_lem d = (ground arith, ground arith)

-- For u64 tick counts: a deadline that lies ahead, or is now, gives the time left. One that has
-- passed, by at most 2^63 ticks, gives a pattern of 2^63 or more, a negative i64, and not the 0
-- that `.max(0)` aims at.
pub until_deadline_lem :
    (deadline now : ℕ)
    → deadline < 2 ^ 64
    → now < 2 ^ 64
    → now ≤ deadline + 2 ^ 63
    → (now ≤ deadline) × (until_deadline deadline now ≡ deadline - now)
      ⊎ (deadline < now)
        × (2 ^ 63 ≤ until_deadline deadline now)
        × (until_deadline deadline now ≢ none)
unfolding until_deadline none
until_deadline_lem deadline now hd hn hw = ground arith
