-- ===== src/Alloc.antt =====
-- `core::alloc::Layout`, and the allocators that the library uses and does not implement.
use ctru_rt.Base.{
  ℕ, ◌+◌, ◌-◌, ◌*◌, ◌/◌, ◌^◌, max, leb, ltb, ◌==◌, Bool, ◌&&◌, bit_and, if◌then◌else◌, Option, none,
  some, ◌≡◌, ◌≢◌, refl, arith,
}

pub record Layout : Type 0 where
  pub size : ℕ
  pub align : ℕ

abbrev pub is_power_of_two : ℕ → Bool
is_power_of_two n = ltb 0 n && (bit_and n (n - 1) == 0)

-- `from_size_align`: the size, rounded up to the alignment, must not leave an isize of 32 bits.
unfoldable pub from_size_align : ℕ → ℕ → Option Layout
from_size_align size align =
    if is_power_of_two align && leb (size + align) (2 ^ 31)
    then some (record { size = size; align = align })
    else none

-- The next multiple of the alignment.
abbrev pub round_up_to : ℕ → ℕ → ℕ
round_up_to align size = (size + align - 1) / align * align

unfoldable pub align_to : Layout → ℕ → Option Layout
unfolding from_size_align
align_to layout align = from_size_align layout.size (max layout.align align)

-- The chain of fallible steps, and its inversion.
abbrev pub and_then : {A B : Type 0} → Option A → (A → Option B) → Option B
and_then none f = none
and_then (some a) f = f a

pub and_then-some :
    {A B : Type 0} (o : Option A) (f : A → Option B) {b : B}
    → and_then o f ≡ some b
    → (a : A) × (o ≡ some a) × (f a ≡ some b)
and_then-some none f e = absurd (ground arith)
and_then-some (some a) f e = (a, refl, e)

-- `extend`: the layout of both, and the offset of the second.
unfoldable pub extend : Layout → Layout → Option (Layout × ℕ)
unfolding from_size_align
extend layout next =
    let offset = round_up_to next.align layout.size in
    and_then (from_size_align (offset + next.size) (max layout.align next.align))
      λ (both : Layout). some (both, offset)

-- An allocator over its state. `alloc` gives 0 where it fails.
pub record Allocator (S : Type 0) : Type 0 where
  pub alloc : Layout → S → ℕ × S
  pub dealloc : ℕ → Layout → S → S

-- The allocator counts: what it gives is in use until it is given back.
pub record Counts {S : Type 0} (a : Allocator S) (live : S → ℕ) : Type 0 where
  pub given : (l : Layout) (s : S) → (a.alloc l s).0 ≢ 0 → live (a.alloc l s).1 ≡ live s + l.size
  pub refused : (l : Layout) (s : S) → (a.alloc l s).0 ≡ 0 → live (a.alloc l s).1 ≡ live s
  pub returned : (p : ℕ) (l : Layout) (s : S) → live (a.dealloc p l s) ≡ live s - l.size
