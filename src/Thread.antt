-- ===== src/Thread.antt =====
-- src/thread.rs: the memory of a thread, and starting and joining it. The state beside the kernel's
-- is that of the allocator. What a boxed closure takes of the allocator, and its address, and
-- reading and the layout of a value of type `T` are parameters.
pub mod Bounds
pub mod Join
pub mod Balance
pub mod Lifecycle
pub mod Packet
use ctru_rt.Base.{
  ℕ, ◌+◌, ◌-◌, ◌^◌, bit_and, u32, Option, none, some, Bool, true, false, Outcome, ok, err, panic,
}
use ctru_rt.Alloc.{Layout, from_size_align, extend, and_then, Allocator}
use ctru_rt.Alloc
use ctru_rt.Machine.{Machine, Sys, ◌>>=◌, ◌>>◌, pure, lift, outside, modify, get, finally, on_error}
use ctru_rt.Os.Handle
use ctru_rt.Svc.Calls.{create_thread}
use ctru_rt.Svc.Waiting.{wait_synchronization}
use ctru_rt.Svc.Timeout

-- `(value + mask) & !mask` on a 32-bit usize.
unfoldable pub align_to : ℕ → ℕ → ℕ
align_to value aligment =
    let mask = aligment - 1 in bit_and (u32 (value + mask)) (2 ^ 32 - 1 - mask)

pub record ThreadMemory : Type 0 where
  pub allocated : ℕ
  pub stack_top : ℕ
  pub return_value : ℕ
  pub layout : Layout

-- `.unwrap()` on a layout.
abbrev pub unwrap {ℓ} : {A : Type ℓ} → Option A → Outcome A
unwrap none = panic
unwrap (some a) = ok a

-- `Layout::array::<u8>(align_to(stack_size, 8)).unwrap().align_to(8).unwrap()`
unfoldable pub stack_layout : ℕ → Option Layout
unfolding align_to from_size_align Alloc.align_to
stack_layout stack_size =
    and_then (from_size_align (align_to stack_size 8) 1)
      λ (layout : Layout). Alloc.align_to layout 8

-- The layout of the block, the size of the stack in it and the offset of the return value.
unfoldable pub memory_layout : ℕ → Layout → Option (Layout × ℕ × ℕ)
unfolding stack_layout extend
memory_layout stack_size value_layout = and_then (stack_layout stack_size) λ (stack : Layout).
    and_then (extend stack value_layout) λ (p : Layout × ℕ). some (p.0, stack.size, p.1)

-- `allocate` places the parts in the block whatever address `alloc` gives.
unfoldable pub thread_memory : ℕ → Layout × ℕ × ℕ → ThreadMemory
thread_memory allocated (layout, stack_size, rv_offset) = record {
  allocated = allocated;
  stack_top = allocated + stack_size;
  return_value = allocated + rv_offset;
  layout = layout;
}

pub record ThreadBuilder : Type 0 where
  pub priority : ℕ
  pub stack_size : ℕ
  pub processor_id : ℕ

-- `processor_id` is -2, as the pattern of an i32.
unfoldable pub default_builder : ThreadBuilder
default_builder = record { priority = 0x30; stack_size = 0x1000; processor_id = 2 ^ 32 - 2 }

unfoldable pub with_priority : ℕ → ThreadBuilder → ThreadBuilder
with_priority priority b = record b { priority = priority }

pub record JoinHandle : Type 0 where
  pub handle : ℕ
  pub memory : ThreadMemory

module _ {S : Type 0} (a : Allocator S) where
  unfoldable pub allocate : {W : Type 0} → ℕ → Layout → Sys (W × S) ThreadMemory
  allocate stack_size value_layout =
      lift (unwrap (memory_layout stack_size value_layout)) >>= λ (parts : Layout × ℕ × ℕ).
      place parts
    where
      place : {W : Type 0} → Layout × ℕ × ℕ → Sys (W × S) ThreadMemory
      place parts (w, s) =
          let (allocated, s') = a.alloc parts.0 s in (ok (thread_memory allocated parts), (w, s'))

  unfoldable pub dealloc : {W : Type 0} → ThreadMemory → Sys (W × S) (Unit {0})
  dealloc memory = modify (a.dealloc memory.allocated memory.layout)

module _ {W S : Type 0} (m : Machine W) (a : Allocator S) where
  -- `ThreadPacket::new` and `into_argument`: boxing the closures, which write the return value.
  module _ (box_packet : ThreadMemory → S → ℕ × S) (thread_start : ℕ) where
    unfoldable pub start_thread : ThreadBuilder → ThreadMemory → Sys (W × S) JoinHandle
    start_thread b memory (w, s) =
        let (argument, s') = box_packet memory s in
        (outside (create_thread m b.priority thread_start argument memory.stack_top b.processor_id)
            >>= λ handle. pure (record { handle = handle; memory = memory }))
          (w, s')

    -- `ThreadBuilder::spawn`: an error returns early, and neither the memory nor the packet has a
    -- destructor that would run.
    unfoldable pub spawn_with : ThreadBuilder → Layout → Sys (W × S) JoinHandle
    spawn_with b value_layout = allocate a b.stack_size value_layout >>= start_thread b

    unfoldable pub spawn : Layout → Sys (W × S) JoinHandle
    unfolding default_builder
    spawn value_layout = spawn_with default_builder value_layout

  module _ {T : Type 0} (read : ℕ → S → T) where
    -- `return_value.read()` and `dealloc`.
    unfoldable pub take_value : ThreadMemory → Sys (W × S) T
    take_value memory (w, s) = (dealloc a memory >> pure (read memory.return_value s)) (w, s)

    -- The handle is dropped at the end in every case.
    unfoldable pub join : JoinHandle → Sys (W × S) T
    join h =
        finally (outside (Handle.drop m h.handle))
          (outside (wait_synchronization m h.handle Timeout.forever) >> take_value h.memory)

-- `wait_synchronization(…).is_err()`
unfoldable pub is_running : {W : Type 0} → Machine W → JoinHandle → Sys W Bool
is_running m h w =
    let (r, w') = wait_synchronization m h.handle Timeout.none w in
    elim r [ ok _ ↦ (ok false, w') | err _ ↦ (ok true, w') | panic ↦ (panic, w') ]
