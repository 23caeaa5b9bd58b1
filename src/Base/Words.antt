-- ===== src/Base/Words.antt =====
-- Machine words as native numbers: shifts, bytes and the two readings of 64 bits.
use Prim.Native.Nat.{ℕ, ◌+◌, ◌*◌, ◌/◌, ◌%◌, ◌^◌}

infixl 60 ◌<<◌ ◌>>◌
-- `<<` on u32: what leaves the word is lost.
abbrev pub ◌<<◌ : ℕ → ℕ → ℕ
a << k = a * 2 ^ k % 2 ^ 32

abbrev pub ◌>>◌ : ℕ → ℕ → ℕ
a >> k = a / 2 ^ k

abbrev pub u8 : ℕ → ℕ
u8 n = n % 2 ^ 8

abbrev pub u32 : ℕ → ℕ
u32 n = n % 2 ^ 32

abbrev pub u64 : ℕ → ℕ
u64 n = n % 2 ^ 64

-- `u32::from_le_bytes`
abbrev pub from_le_bytes : ℕ → ℕ → ℕ → ℕ → ℕ
from_le_bytes b0 b1 b2 b3 = b0 + b1 * 2 ^ 8 + b2 * 2 ^ 16 + b3 * 2 ^ 24

-- byte `i` of `u32::to_le_bytes`
abbrev pub le_byte : ℕ → ℕ → ℕ
le_byte i w = w / 2 ^ (8 * i) % 2 ^ 8
