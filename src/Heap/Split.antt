-- ===== src/Heap/Split.antt =====
-- The sizes that `heap::init` chooses.
use ctru_rt.Base.{
  ℕ, ◌+◌, ◌-◌, ◌*◌, ◌/◌, ◌%◌, ◌^◌, ◌≤◌, ◌<◌, ◌≡◌, ◌≢◌, ◌⊎◌, inl, inr, arith, bit_and-shift,
  bit_and-mask, dec_lt, ℕ_discrete, refl, ok, err,
}
use ctru_rt.Codes.ErrorCode
use ctru_rt.Heap.{page_align, divide, choose, heap_split_cap, linear_heap_split_cap}

-- `page_align` rounds down to a multiple of the page size.
pub page_align_lem : (size : ℕ) → size < 2 ^ 32 → page_align size ≡ size / 2 ^ 12 * 2 ^ 12
unfolding page_align
page_align_lem size h =
    omega (arith, bit_and-shift 12 size (2 ^ 20 - 1), bit_and-mask 20 (size / 2 ^ 12))

-- With no size configured the two heaps share what is left, a number of whole pages below 2^32: the
-- linear heap gets at most its cap, the heap gets all the rest, and exceeds its own cap only where
-- the linear heap is at its cap.
pub divide_lem :
    (remaining : ℕ)
    → remaining < 2 ^ 32
    → remaining % 2 ^ 12 ≡ 0
    → ((divide remaining).0 + (divide remaining).1 ≡ remaining)
      × ((divide remaining).0 % 2 ^ 12 ≡ 0)
      × ((divide remaining).1 % 2 ^ 12 ≡ 0)
      × ((divide remaining).1 ≤ linear_heap_split_cap)
      × (((divide remaining).0 ≤ heap_split_cap) ⊎ ((divide remaining).1 ≡ linear_heap_split_cap))
unfolding divide
divide_lem remaining h a =
    let half = page_align_lem (remaining / 2) (omega arith) in
    (
      ground (arith, half),
      ground (arith, half),
      ground (arith, half),
      ground (arith, half),
      ground (arith, half),
    )

divide_sum : (remaining : ℕ) → (divide remaining).0 + (divide remaining).1 ≡ remaining
unfolding divide
divide_sum remaining = ground arith

-- For sizes of 32 bits whose sum is one too: where the configured sizes exceed what is left, `init`
-- fails with `ERROR_OUT_OF_MEMORY`. Otherwise the chosen sizes fit, a configured size is kept, and
-- all of the memory is used unless both are configured.
pub choose_lem :
    (remaining heap linear : ℕ)
    → remaining < 2 ^ 32
    → heap + linear < 2 ^ 32
    → (remaining < heap + linear) × (choose remaining heap linear ≡ err ErrorCode.out_of_memory)
      ⊎ ((heap + linear ≤ remaining)
          × (h : ℕ) × (l : ℕ) × (choose remaining heap linear ≡ ok (h, l))
          × (h + l ≤ remaining)
          × ((heap ≡ 0) ⊎ (h ≡ heap))
          × ((linear ≡ 0) ⊎ (l ≡ linear))
          × ((heap ≢ 0) × (linear ≢ 0) ⊎ (h + l ≡ remaining)))
unfolding choose
choose_lem remaining heap linear hr hs = elim (dec_lt remaining (heap + linear)) [
  | yes over ↦ inl (over, ground arith)
  | no fits ↦ elim (ℕ_discrete heap 0) [
    | yes h0 ↦ elim (ℕ_discrete linear 0) [
      | yes l0 ↦ inr (
        omega arith,
        (divide remaining).0,
        (divide remaining).1,
        ground arith,
        omega (arith, divide_sum remaining),
        inl h0,
        inl l0,
        inr (divide_sum remaining),
      )
      | no l1 ↦ inr (
        omega arith,
        remaining - linear,
        linear,
        ground arith,
        omega arith,
        inl h0,
        inr refl,
        inr (omega arith),
      )
    ]
    | no h1 ↦ elim (ℕ_discrete linear 0) [
      | yes l0 ↦ inr (
        omega arith,
        heap,
        remaining - heap,
        ground arith,
        omega arith,
        inr refl,
        inl l0,
        inr (omega arith),
      )
      | no l1 ↦
          inr
            (omega arith, heap, linear, ground arith, omega arith, inr refl, inr refl, inl (h1, l1))
    ]
  ]
]
