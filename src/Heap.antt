-- ===== src/Heap.antt =====
-- src/heap.rs: how the memory of the process is divided, and the start of both heaps.
pub mod Split
pub mod Init
pub mod Buffer
use ctru_rt.Base.{ℕ, ◌+◌, ◌-◌, ◌*◌, ◌/◌, ◌%◌, ◌^◌, min, ltb, leb, if◌then◌else◌, bit_and, u32}
use ctru_rt.Base.{Bool, not, ◌==◌, Outcome, ok, err, panic, Option, none, some, List, [], ◌∷◌}
use ctru_rt.Codes.ResultCode
use ctru_rt.Codes.ErrorCode
use ctru_rt.Machine.{Machine, Sys, ◌>>=◌, ◌>>◌, lift, finally, outside, modify}
use ctru_rt.Svc.Calls.{control_memory}
use ctru_rt.Svc.System.{output_debug_string}
use ctru_rt.Os.Mem
use ctru_rt.Os.Mem.{MemoryPermission}
use ctru_rt.Os.Handle
use ctru_rt.Os.Reslimit

abbrev pub heap_start : ℕ
heap_start = 0x0800_0000

abbrev pub heap_split_cap : ℕ
heap_split_cap = 24 * 2 ^ 20

abbrev pub linear_heap_split_cap : ℕ
linear_heap_split_cap = 32 * 2 ^ 20

-- `size & !0xfff`, on a 32-bit usize.
unfoldable pub page_align : ℕ → ℕ
page_align size = bit_and size (2 ^ 32 - 1 - 0xfff)

-- Neither size is configured.
unfoldable pub divide : ℕ → ℕ × ℕ
divide memory_remaining =
    let half = page_align (memory_remaining / 2) in
    let heap_size = min (memory_remaining - half) heap_split_cap in
    let linear_heap_size = memory_remaining - heap_size in
    if ltb linear_heap_split_cap linear_heap_size
    then (memory_remaining - linear_heap_split_cap, linear_heap_split_cap)
    else (heap_size, linear_heap_size)

-- From the check of `total_memory` on; the sum is a 32-bit usize.
unfoldable pub choose : ℕ → ℕ → ℕ → Outcome (ℕ × ℕ)
choose memory_remaining heap_size linear_heap_size =
    if ltb memory_remaining (u32 (heap_size + linear_heap_size))
    then err ErrorCode.out_of_memory
    else elim (ResultCode.non_zero heap_size) [
      | none ↦ elim (ResultCode.non_zero linear_heap_size) [
        | none ↦ ok (divide memory_remaining)
        | some _ ↦ ok (memory_remaining - linear_heap_size, linear_heap_size)
      ]
      | some _ ↦ elim (ResultCode.non_zero linear_heap_size) [
        | none ↦ ok (heap_size, memory_remaining - heap_size)
        | some _ ↦ ok (heap_size, linear_heap_size)
      ]
    ]

-- A negative i64 means that nothing is left; `as usize` keeps 32 bits.
unfoldable pub usable : ℕ → Outcome ℕ
usable memory_remaining =
    if leb (2 ^ 63) memory_remaining
    then err ErrorCode.out_of_memory
    else ok (page_align (u32 memory_remaining))

-- The statics `__heap_size` and `__linear_heap_size`, and what `ALLOCATOR` was given.
pub record Heap : Type 0 where
  pub heap_size : ℕ
  pub linear_heap_size : ℕ
  pub allocator : Option (ℕ × ℕ)

unfoldable pub initialized : Heap → Bool
initialized h = elim h.allocator [ none ↦ Bool.false | some (bottom, _) ↦ not (bottom == 0) ]

-- `"Mapped heap"`
abbrev pub mapped_heap : List ℕ
mapped_heap = 77 ∷ 97 ∷ 112 ∷ 112 ∷ 101 ∷ 100 ∷ 32 ∷ 104 ∷ 101 ∷ 97 ∷ 112 ∷ []

-- In a build without debug assertions, in which `early_debug` with arguments is nothing.
module _ {W : Type 0} (m : Machine W) where
  unfoldable pub memory_remaining : Sys W ℕ
  memory_remaining = do
    limits ← Reslimit.process_limits m Handle.active_process
    finally (Handle.drop m limits) (Reslimit.remaining m (Reslimit.memory_allocatable_limit limits))

  unfoldable pub map_heap : ℕ → Sys (W × Heap) (Unit {0})
  map_heap heap_size = do
    start ← outside (
        control_memory m Mem.allocate heap_start 0x0 heap_size
          (Mem.permission_number MemoryPermission.rw))
    outside (output_debug_string m mapped_heap)
    modify (λ h. record h { allocator = some (start, heap_size) })
    modify (λ h. record h { heap_size = heap_size })

  unfoldable pub map_linear_heap : ℕ → Sys (W × Heap) (Unit {0})
  map_linear_heap linear_heap_size = do
    _ ← outside (
        control_memory m (Mem.linear Mem.allocate) 0x0 0x0 linear_heap_size
          (Mem.permission_number MemoryPermission.rw))
    modify (λ h. record h { linear_heap_size = linear_heap_size })

  unfoldable pub init : Sys (W × Heap) (Unit {0})
  init (w, h) = plan (w, h)
    where
      plan : Sys (W × Heap) (Unit {0})
      plan = do
        raw ← outside memory_remaining
        remaining ← lift (usable raw)
        sizes ← lift (choose remaining h.heap_size h.linear_heap_size)
        map_heap sizes.0
        map_linear_heap sizes.1
