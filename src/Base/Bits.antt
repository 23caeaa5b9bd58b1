-- ===== src/Base/Bits.antt =====
-- `|` and `&` on words as arithmetic, at every width.
use Prim.Native.Nat.{
  ℕ, zero, suc, ◌+◌, ◌-◌, ◌*◌, ◌/◌, ◌%◌, ◌^◌, ◌≤◌, ◌<◌, min, max, bit_and, bit_or, digits,
  bit_and-bitwise, bit_or-bitwise,
}
use mathlib.Core.Path.{◌≡◌, refl, ap, ap₂}
use native.Mathlib.Nat.{pow-suc, one-le-pow, mul_comm, div-div-eq-div-mul, div-add-mod'}
use native.Mathlib.Omega.{arith}

-- What a native bit operation means, a recursion on binary digits, does not turn on its fuel.
module _ (z : ℕ → ℕ) (f : ℕ → ℕ → ℕ) where
  fuel_irrelevant : (n m a b : ℕ) → a ≤ n → a ≤ m → digits z f n a b ≡ digits z f m a b
  fuel_irrelevant zero zero a b hn hm = refl
  fuel_irrelevant zero (suc m) zero b hn hm = refl
  fuel_irrelevant (suc n) zero zero b hn hm = refl
  fuel_irrelevant (suc n) (suc m) zero b hn hm = refl
  fuel_irrelevant zero _ (suc a) b hn hm = elim hn [ ]
  fuel_irrelevant (suc n) zero (suc a) b hn hm = elim hm [ ]
  fuel_irrelevant (suc n) (suc m) (suc a) b hn hm =
      ap (λ t. t * 2 + f (suc a % 2) (b % 2))
        (fuel_irrelevant n m (suc a / 2) (b / 2) (omega arith) (omega arith))

-- One binary digit of `&` and of `|`.
pub bit_and_step : (a b : ℕ) → bit_and a b ≡ bit_and (a / 2) (b / 2) * 2 + min (a % 2) (b % 2)
bit_and_step zero b = omega (arith, bit_and-bitwise 0 b, bit_and-bitwise 0 (b / 2))
bit_and_step (suc a) b = omega (
  arith,
  bit_and-bitwise (suc a) b,
  bit_and-bitwise (suc a / 2) (b / 2),
  fuel_irrelevant (λ y. 0) min a (suc a / 2) (suc a / 2) (b / 2) (omega arith) (omega arith),
)

pub bit_or_step : (a b : ℕ) → bit_or a b ≡ bit_or (a / 2) (b / 2) * 2 + max (a % 2) (b % 2)
bit_or_step zero b = omega (arith, bit_or-bitwise 0 b, bit_or-bitwise 0 (b / 2))
bit_or_step (suc a) b = omega (
  arith,
  bit_or-bitwise (suc a) b,
  bit_or-bitwise (suc a / 2) (b / 2),
  fuel_irrelevant (λ y. y) max a (suc a / 2) (suc a / 2) (b / 2) (omega arith) (omega arith),
)

-- By recursion on a bound, as `a / 2` is no part of `a`.
bit_and-zero_below : (n a : ℕ) → a ≤ n → bit_and a 0 ≡ 0
bit_and-zero_below zero zero h = refl
bit_and-zero_below zero (suc a) h = elim h [ ]
bit_and-zero_below (suc n) a h =
    omega (arith, bit_and_step a 0, bit_and-zero_below n (a / 2) (omega arith))

bit_or-zero_below : (n a : ℕ) → a ≤ n → bit_or a 0 ≡ a
bit_or-zero_below zero zero h = refl
bit_or-zero_below zero (suc a) h = elim h [ ]
bit_or-zero_below (suc n) a h =
    omega (arith, bit_or_step a 0, bit_or-zero_below n (a / 2) (omega arith))

pub bit_and-zero : (a : ℕ) → bit_and a 0 ≡ 0
bit_and-zero a = bit_and-zero_below a a (omega arith)

pub bit_or-zero : (a : ℕ) → bit_or a 0 ≡ a
bit_or-zero a = bit_or-zero_below a a (omega arith)

shift_suc : (q k : ℕ) → q * 2 ^ suc k ≡ 2 * (q * 2 ^ k)
shift_suc q k = omega (arith, ap (λ (t : ℕ). q * t) (pow-suc 2 k))

or_shifted : (k q r : ℕ) → r < 2 ^ k → bit_or (q * 2 ^ k) r ≡ q * 2 ^ k + r
or_shifted zero q r h = ground (arith, bit_or-zero q)
or_shifted (suc k) q r h = ground (
  arith,
  shift_suc q k,
  pow-suc 2 k,
  bit_or_step (q * 2 ^ suc k) r,
  or_shifted k q (r / 2) (omega (arith, pow-suc 2 k)),
)

-- `a | b` is a sum where `b` fits below the lowest bit of `a`.
pub bit_or_disjoint : (k a b : ℕ) → a % 2 ^ k ≡ 0 → b < 2 ^ k → bit_or a b ≡ a + b
bit_or_disjoint k a b ha hb = ground (arith, or_shifted k (a / 2 ^ k) b)

div_pow_suc : (a k : ℕ) → a / 2 ^ suc k ≡ a / 2 / 2 ^ k
div_pow_suc a k = rw (div-div-eq-div-mul, pow-suc) (ap (λ t. a / t) (mul_comm (2 ^ k) 2))

-- `a & (m << k)` looks at the bits of `a` from `k` on.
pub bit_and-shift : (k a m : ℕ) → bit_and a (m * 2 ^ k) ≡ bit_and (a / 2 ^ k) m * 2 ^ k
bit_and-shift zero a m = ground arith
bit_and-shift (suc k) a m = ground (
  arith,
  shift_suc m k,
  shift_suc (bit_and (a / 2 ^ suc k) m) k,
  bit_and_step a (m * 2 ^ suc k),
  bit_and-shift k (a / 2) m,
  div_pow_suc a k,
)

mod_pow_suc : (a k : ℕ) → a % 2 ^ suc k ≡ a / 2 % 2 ^ k * 2 + a % 2
mod_pow_suc a k = ground (
  arith,
  pow-suc 2 k,
  div-add-mod' a (2 ^ suc k),
  div-add-mod' (a / 2) (2 ^ k),
  div_pow_suc a k,
  shift_suc (a / 2 ^ suc k) k,
)

mask_suc : (k : ℕ) → ((2 ^ suc k - 1) / 2 ≡ 2 ^ k - 1) × ((2 ^ suc k - 1) % 2 ≡ 1)
mask_suc k = omega (arith, pow-suc 2 k, one-le-pow k 2 (omega arith))

-- A mask of `k` low bits is the remainder by `2 ^ k`.
pub bit_and-mask : (k a : ℕ) → bit_and a (2 ^ k - 1) ≡ a % 2 ^ k
bit_and-mask zero a = omega (arith, bit_and-zero a)
bit_and-mask (suc k) a = ground (
  arith,
  bit_and_step a (2 ^ suc k - 1),
  bit_and-mask k (a / 2),
  mask_suc k,
  ap (λ t. bit_and (a / 2) t) (mask_suc k).0,
  mod_pow_suc a k,
)

-- The bits of a disjunction.
pub bit_or-div : (k a b : ℕ) → bit_or a b / 2 ^ k ≡ bit_or (a / 2 ^ k) (b / 2 ^ k)
bit_or-div zero a b = ground arith
bit_or-div (suc k) a b =
    rw
      (div_pow_suc (bit_or a b) k, div_pow_suc a k, div_pow_suc b k, ← bit_or-div k (a / 2) (b / 2))
      (ap (λ t. t / 2 ^ k) (omega (arith, bit_or_step a b)))

pub bit_or-mod : (a b : ℕ) → bit_or a b % 2 ≡ max (a % 2) (b % 2)
bit_or-mod a b = omega (arith, bit_or_step a b)

pub bit_and-mod : (a b : ℕ) → bit_and a b % 2 ≡ min (a % 2) (b % 2)
bit_and-mod a b = omega (arith, bit_and_step a b)

bit_or-comm_below : (n a b : ℕ) → a ≤ n → b ≤ n → bit_or a b ≡ bit_or b a
bit_or-comm_below zero zero zero h k = refl
bit_or-comm_below zero (suc a) b h k = elim h [ ]
bit_or-comm_below zero zero (suc b) h k = elim k [ ]
bit_or-comm_below (suc n) a b h k = omega (
  arith,
  bit_or_step a b,
  bit_or_step b a,
  bit_or-comm_below n (a / 2) (b / 2) (omega arith) (omega arith),
)

pub bit_or_comm : (a b : ℕ) → bit_or a b ≡ bit_or b a
bit_or_comm a b = bit_or-comm_below (a + b) a b (omega arith) (omega arith)

half_of_mod : (a k : ℕ) → (a % 2 ^ suc k / 2 ≡ a / 2 % 2 ^ k) × (a % 2 ^ suc k % 2 ≡ a % 2)
half_of_mod a k = omega (arith, mod_pow_suc a k)

-- `|` works on the bits above and below any place apart.
pub bit_or_split :
    (k a b : ℕ)
    → bit_or a b ≡ bit_or (a / 2 ^ k) (b / 2 ^ k) * 2 ^ k + bit_or (a % 2 ^ k) (b % 2 ^ k)
bit_or_split zero a b = ground (arith, ap₂ bit_or (mod_one a) (mod_one b))
  where
    mod_one : (n : ℕ) → n % 1 ≡ 0
    mod_one n = omega arith
bit_or_split (suc k) a b = ground (
  arith,
  bit_or_step a b,
  bit_or_split k (a / 2) (b / 2),
  div_pow_suc a k,
  div_pow_suc b k,
  bit_or_step (a % 2 ^ suc k) (b % 2 ^ suc k),
  ap₂ bit_or (half_of_mod a k).0 (half_of_mod b k).0,
  half_of_mod a k,
  half_of_mod b k,
  shift_suc (bit_or (a / 2 ^ suc k) (b / 2 ^ suc k)) k,
)
