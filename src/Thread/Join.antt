-- ===== src/Thread/Join.antt =====
-- What joining gives back and what a failed start leaves.
use ctru_rt.Base.{ℕ, ◌≡◌, arith, Outcome, ok, err, some, refl, ◌⊎◌, inl, inr, panic}
use ctru_rt.Alloc.{Layout, Allocator}
use ctru_rt.Machine.{Machine}
use ctru_rt.Os.Handle
use ctru_rt.Svc.Calls.{create_thread}
use ctru_rt.Svc.Waiting.{wait_synchronization}
use ctru_rt.Svc.Timeout
use ctru_rt.Thread.{
  ThreadMemory, ThreadBuilder, JoinHandle, memory_layout, thread_memory, allocate, dealloc,
  start_thread, spawn_with, take_value, join,
}

module _ {W S T : Type 0} (m : Machine W) (a : Allocator S) (read : ℕ → S → T) where
  -- Where the wait succeeds, `join` returns what the allocator's memory holds at the address of the
  -- return value, gives the block back with the layout it was allocated with, and drops the handle;
  -- where the wait fails, it returns the error, drops the handle and keeps the block allocated.
  pub join_lem :
      (h : JoinHandle) (w w' : W) (s : S) (r : Outcome (Unit {0}))
      → wait_synchronization m h.handle Timeout.forever w ≡ (r, w')
      → (r ≡ ok tt)
          × (join m a read h (w, s) ≡ (
            ok (read h.memory.return_value s),
            ((Handle.drop m h.handle w').1, a.dealloc h.memory.allocated h.memory.layout s),
          ))
        ⊎ ((e : ℕ) × (r ≡ err e)
            × (join m a read h (w, s) ≡ (err e, ((Handle.drop m h.handle w').1, s))))
        ⊎ (r ≡ panic) × (join m a read h (w, s) ≡ (panic, (w', s)))
  unfolding join take_value dealloc
  join_lem h w w' s (ok tt) e = inl (refl, ground arith)
  join_lem h w w' s (err x) e = inr (inl (x, refl, ground arith))
  join_lem h w w' s panic e = inr (inr (refl, ground arith))

module _ {W S : Type 0} (m : Machine W) (a : Allocator S) (box_packet : ThreadMemory → S → ℕ × S)
    (thread_start : ℕ) where
  -- Where the layout can be made and the kernel refuses to create the thread, `spawn` returns its
  -- error with the allocator in the state after both allocations: nothing of them is given back.
  pub spawn_leaks :
      (b : ThreadBuilder) (value_layout : Layout) (parts : Layout × ℕ × ℕ) (w w' : W) (s : S)
      (e : ℕ)
      → memory_layout b.stack_size value_layout ≡ some parts
      → let (allocated, s1) = a.alloc parts.0 s in
        let memory = thread_memory allocated parts in
        let (argument, s2) = box_packet memory s1 in
        create_thread m b.priority thread_start argument memory.stack_top b.processor_id w
          ≡ (err e, w')
        → spawn_with m a box_packet thread_start b value_layout (w, s) ≡ (err e, (w', s2))
  unfolding spawn_with allocate start_thread
  spawn_leaks b value_layout parts w w' s e p q = ground arith
