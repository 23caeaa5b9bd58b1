-- ===== src/Heap/Buffer.antt =====
-- `PageAlignedBuffer` of src/heap.rs, over the heap's allocator.
use ctru_rt.Base.{
  ℕ, ◌+◌, ◌^◌, ◌<◌, ◌≤◌, Option, none, some, Result, okay, fail, ◌≡◌, ◌≢◌, ◌⊎◌, inl, inr, refl,
  arith, ◌==◌, if◌then◌else◌, dec_lt, ℕ_discrete,
}
use ctru_rt.Alloc.{Layout, from_size_align, Allocator}

pub data PageAlignError : Type 0 where
  alloc_error layout_error : PageAlignError

pub record PageAlignedBuffer : Type 0 where
  pub buffer : Option ℕ
  pub layout : Layout

unfoldable pub null : PageAlignedBuffer
null = record { buffer = none; layout = record { size = 0; align = 1 } }

unfoldable pub layout_for_size : ℕ → Option Layout
unfolding from_size_align
layout_for_size size = from_size_align size 0x1000

unfoldable pub size : PageAlignedBuffer → ℕ
size b = b.layout.size

-- `Default`, and `as_ptr`.
unfoldable pub default : PageAlignedBuffer
unfolding null
default = null

unfoldable pub as_ptr : PageAlignedBuffer → Option ℕ
as_ptr b = b.buffer

module _ {S : Type 0} (a : Allocator S) where
  -- `allocate_first_fit` fails where the allocator gives no address.
  unfoldable pub allocate : ℕ → S → Result PageAlignedBuffer PageAlignError × S
  unfolding layout_for_size
  allocate size s = elim (layout_for_size size) [
    | none ↦ (fail layout_error, s)
    | some layout ↦
        let (address, s') = a.alloc layout s in
        if address == 0
        then (fail alloc_error, s')
        else (okay (record { buffer = some address; layout = layout }), s')
  ]

  unfoldable pub drop : PageAlignedBuffer → S → S
  drop b s = elim b.buffer [ none ↦ s | some address ↦ a.dealloc address b.layout s ]

  -- A size up to 2^31 - 2^12 is passed to the allocator, with the alignment of a page, and a larger
  -- one is refused with no call. A buffer that is returned has the size, and dropping it gives its
  -- address back with the layout that it was allocated with.
  pub allocate_lem :
      (n : ℕ) (s : S)
      → let layout : Layout = record { size = n; align = 0x1000 } in
        let (address, s') = a.alloc layout s in
        (2 ^ 31 < n + 2 ^ 12) × (allocate n s ≡ (fail layout_error, s))
        ⊎ (n + 2 ^ 12 ≤ 2 ^ 31) × (address ≡ 0) × (allocate n s ≡ (fail alloc_error, s'))
        ⊎ (n + 2 ^ 12 ≤ 2 ^ 31)
          × (address ≢ 0)
          × ((b : PageAlignedBuffer) × (allocate n s ≡ (okay b, s'))
              × (size b ≡ n)
              × (drop b s' ≡ a.dealloc address layout s'))
  unfolding allocate size drop
  allocate_lem n s = elim (dec_lt (2 ^ 31) (n + 2 ^ 12)) [
    | yes big ↦ inl (big, ground arith)
    | no fits ↦ elim (ℕ_discrete (a.alloc (record { size = n; align = 0x1000 }) s).0 0) [
      | yes z ↦ inr (inl (omega arith, z, ground arith))
      | no nz ↦ inr (
          inr (
            omega arith,
            nz,
            (
              record {
                buffer = some (a.alloc (record { size = n; align = 0x1000 }) s).0;
                layout = record { size = n; align = 0x1000 };
              },
              ground arith,
              refl,
              refl,
            ),
          ))
    ]
  ]
