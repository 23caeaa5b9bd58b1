-- ===== src/Thread/Bounds.antt =====
-- Where the stack and the return value of a thread lie in its block.
use ctru_rt.Base.{
  ℕ, zero, suc, ◌+◌, ◌*◌, ◌/◌, ◌%◌, ◌^◌, ◌<◌, ◌≤◌, ◌≡◌, sym, ap, ◌∙◌, arith, bit_and, bit_and-shift,
  bit_and-mask, some, max,
}
use ctru_rt.Alloc.{Layout, from_size_align, extend, round_up_to, and_then, and_then-some}
use ctru_rt.Alloc
use ctru_rt.Thread.{align_to, stack_layout, memory_layout, thread_memory}

-- Aligning to 8 rounds up, while this does not leave 32 bits.
align_to_lem : (n : ℕ) → n + 7 < 2 ^ 32 → align_to n 8 ≡ (n + 7) / 8 * 8
unfolding align_to
align_to_lem n h =
    let fits : (n + 7) % 2 ^ 32 ≡ n + 7 = omega arith in
    let masked : bit_and (n + 7) 4294967288 ≡ bit_and ((n + 7) / 8) 536870911 * 8 =
      bit_and-shift 3 (n + 7) 536870911 in
    let low : bit_and ((n + 7) / 8) 536870911 ≡ (n + 7) / 8 % 2 ^ 29 =
      bit_and-mask 29 ((n + 7) / 8) in
    ap (λ t. bit_and t 4294967288) fits ∙ omega arith

-- A layout that is made has the size it is made for.
from_size_align-size :
    (size align : ℕ) {l : Layout} → from_size_align size align ≡ some l → l.size ≡ size
unfolding from_size_align
from_size_align-size size align e = ground arith

stack_layout-size :
    (stack_size : ℕ) {l : Layout}
    → stack_layout stack_size ≡ some l
    → l.size ≡ align_to stack_size 8
unfolding stack_layout Alloc.align_to
stack_layout-size stack_size e =
    let (first, f, g) =
      and_then-some (from_size_align (align_to stack_size 8) 1)
        (λ (layout : Layout). Alloc.align_to layout 8) e in
    from_size_align-size first.size (max first.align 8) g
    ∙ from_size_align-size (align_to stack_size 8) 1 f

extend_sizes :
    (layout next both : Layout) (offset : ℕ)
    → extend layout next ≡ some (both, offset)
    → (offset ≡ round_up_to next.align layout.size) × (both.size ≡ offset + next.size)
unfolding extend
extend_sizes layout next both offset e =
    let at : ℕ = round_up_to next.align layout.size in
    let (made, f, g) =
      and_then-some (from_size_align (at + next.size) (max layout.align next.align))
        (λ (made : Layout). some (made, at)) e in
    let same : made ≡ both = ground arith in
    let place : at ≡ offset = ground arith in
    (
      sym place,
      ap (λ (l : Layout). l.size) (sym same)
          ∙ from_size_align-size (at + next.size) (max layout.align next.align) f
          ∙ ap (λ t. t + next.size) place,
    )

memory_layout_sizes :
    (stack_size : ℕ) (value block : Layout) (stack rv_offset : ℕ)
    → memory_layout stack_size value ≡ some (block, stack, rv_offset)
    → (stack ≡ align_to stack_size 8)
      × (rv_offset ≡ round_up_to value.align stack)
      × (block.size ≡ rv_offset + value.size)
unfolding memory_layout
memory_layout_sizes stack_size value block stack rv_offset e =
    let (first, f, g) =
      and_then-some (stack_layout stack_size)
        (λ (stack : Layout).
          and_then (extend stack value) λ (p : Layout × ℕ). some (p.0, stack.size, p.1))
        e in
    let (both, x, y) =
      and_then-some (extend first value) (λ (p : Layout × ℕ). some (p.0, first.size, p.1)) g in
    let same : first.size ≡ stack = ground arith in
    let offset : both.1 ≡ rv_offset = ground arith in
    let whole : both.0 ≡ block = ground arith in
    let (p, q) = extend_sizes first value both.0 both.1 x in
    (
      sym same ∙ stack_layout-size stack_size f,
      sym offset ∙ p ∙ ap (round_up_to value.align) same,
      ap (λ (l : Layout). l.size) (sym whole) ∙ q ∙ ap (λ t. t + value.size) offset,
    )

-- A multiple of a small power of two behind a multiple of 8.
rounded :
    (k align stack allocated : ℕ)
    → k < 4
    → align ≡ 2 ^ k
    → allocated % 8 ≡ 0
    → (stack ≤ round_up_to align stack) × ((allocated + round_up_to align stack) % align ≡ 0)
rounded zero align stack allocated h e a = rw e (omega arith, omega arith)
rounded (suc zero) align stack allocated h e a = rw e (omega arith, omega arith)
rounded (suc (suc zero)) align stack allocated h e a = rw e (omega arith, omega arith)
rounded (suc (suc (suc zero))) align stack allocated h e a = rw e (omega arith, omega arith)
rounded (suc (suc (suc (suc k)))) align stack allocated h e a = absurd (omega arith)

-- Where the layout of a thread's memory can be made, for a stack size that does not leave 32 bits
-- when it is rounded up and a value whose alignment is a power of two up to 8, in a block at an
-- address that is aligned to 8: the stack comes first and is at least as large as asked for, its
-- top is aligned to 8, and the return value is aligned and lies behind the stack and in the block.
pub memory_layout_lem :
    (stack_size k allocated : ℕ) (value block : Layout) (stack rv_offset : ℕ)
    → stack_size + 7 < 2 ^ 32
    → k < 4
    → value.align ≡ 2 ^ k
    → allocated % 8 ≡ 0
    → memory_layout stack_size value ≡ some (block, stack, rv_offset)
    → let t = thread_memory allocated (block, stack, rv_offset) in
      (t.allocated + stack_size ≤ t.stack_top)
      × (t.stack_top % 8 ≡ 0)
      × (t.stack_top ≤ t.return_value)
      × (t.return_value % value.align ≡ 0)
      × (t.return_value + value.size ≤ t.allocated + block.size)
unfolding thread_memory
memory_layout_lem stack_size k allocated value block stack rv_offset h hk ha al e =
    let (p, q, r) = memory_layout_sizes stack_size value block stack rv_offset e in
    let (behind, aligned) = rounded k value.align stack allocated hk ha al in
    let a = align_to_lem stack_size h in
    (
      omega arith,
      omega arith,
      omega arith,
      ap (λ t. (allocated + t) % value.align) q ∙ aligned,
      omega arith,
    )
