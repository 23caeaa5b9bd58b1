-- ===== src/Tests/Threads.antt =====
-- Calls, memory and threads, over the small kernel of the tests.
use ctru_rt.Base.{
  Bool, ℕ, ◌+◌, ◌≤◌, ◌%◌, ◌^◌, ◌-◌, ◌≡◌, ◌⊎◌, refl, arith, List, [], ◌∷◌, none, some, fail, ◌<◌,
}
use ctru_rt.Alloc.{Layout, from_size_align, extend}
use ctru_rt.Alloc
use ctru_rt.IpcCall.{IpcCall, translate_parameter}
use ctru_rt.Ipc.Header
use ctru_rt.Thread.{
  ThreadMemory, ThreadBuilder, memory_layout, stack_layout, align_to, thread_memory,
}
use ctru_rt.Thread.Bounds.{memory_layout_lem}
use ctru_rt.Thread.Lifecycle.{
  Life, Reach, here, later, Step, spawned, stored, exited, steps, Ended, lifecycle_safe,
  lifecycle_ends,
}

abbrev two_words : List ℕ
two_words = 7 ∷ 8 ∷ []

abbrev a_call : IpcCall
a_call = record { id = 5; params = two_words; translate_params = translate_parameter ∷ [] }

abbrev a_word : Layout
a_word = record { size = 4; align = 4 }

abbrev whole_block : Layout
whole_block = record { size = 0x1004; align = 8 }

abbrev parts : Layout × ℕ × ℕ
parts = (whole_block, 0x1000, 0x1000)

small_stack : memory_layout 0x1000 a_word ≡ some parts
unfolding memory_layout stack_layout align_to from_size_align Alloc.align_to extend
small_stack = refl

memory_layout_lem_example :
    let t = thread_memory 0x8000 parts in
    (t.allocated + 0x1000 ≤ t.stack_top)
    × (t.stack_top % 8 ≡ 0)
    × (t.stack_top ≤ t.return_value)
    × (t.return_value % 4 ≡ 0)
    × (t.return_value + 4 ≤ t.allocated + 0x1004)
memory_layout_lem_example =
    memory_layout_lem 0x1000 2 0x8000 a_word whole_block 0x1000 0x1000 (omega arith) (omega arith)
      refl refl small_stack

-- A packet of 8 bytes.
abbrev boxed : ThreadMemory → ℕ → ℕ × ℕ
boxed memory used = (0x8000 + used, used + 8)

abbrev builder : ThreadBuilder
builder = record { priority = 0x30; stack_size = 0x1000; processor_id = 2 ^ 32 - 2 }

abbrev live_bytes : ℕ → ℕ
live_bytes used = used

-- The value of a thread is the address that it is read from.
abbrev value_at : ℕ → ℕ → ℕ
value_at place used = place

abbrev behind_store : Life
behind_store = record {
  phase = stored;
  return_value = some 7;
  allocated = Bool.true;
  joined = none;
  join_failed = Bool.false;
}

stores : Reach 7 spawned behind_store
stores = later here (Step.store refl)

lifecycle_safe_example :
    ((behind_store.phase ≡ exited) ⊎ (behind_store.allocated ≡ Bool.true))
    × ((behind_store.joined ≡ none) × (behind_store.allocated ≡ Bool.true)
        ⊎ (behind_store.joined ≡ some 7) × (behind_store.allocated ≡ Bool.false))
lifecycle_safe_example = lifecycle_safe stores

-- The wait fails while the thread still runs, which then stores and exits.
abbrev leaked : Life
leaked = record {
  phase = exited;
  return_value = some 7;
  allocated = Bool.true;
  joined = none;
  join_failed = Bool.true;
}

leaks : Reach 7 spawned leaked
leaks = later (later (later here (Step.fail refl refl)) (Step.store refl)) (Step.exit refl)

lifecycle_ends_example :
    (steps leaks < 3) × ((t : Life) × Step 7 leaked t) ⊎ (steps leaks ≡ 3) × Ended 7 leaked
lifecycle_ends_example = lifecycle_ends leaks
