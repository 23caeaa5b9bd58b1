-- ===== src/Heap/Init.antt =====
-- What `heap::init` leaves in the statics and in the allocator.
use ctru_rt.Base.{ℕ, ◌≡◌, arith, ok, Option, none, some}
use ctru_rt.Machine.{Machine, bind-ok, lift, outside}
use ctru_rt.Svc.System.{output_debug_string}
use ctru_rt.Svc.Calls.{output_debug_bytes}
use ctru_rt.Heap.{Heap, choose, usable, memory_remaining, map_heap, map_linear_heap, init}

-- The size of the region that the allocator was given.
abbrev pub allocated : Heap → Option ℕ
allocated h = elim h.allocator [ none ↦ none | some (start, size) ↦ some size ]

module _ {W : Type 0} (m : Machine W) where
  map_heap-ok :
      (size : ℕ) (s t : W × Heap)
      → map_heap m size s ≡ (ok tt, t)
      → (t.1.heap_size ≡ size)
        × (t.1.linear_heap_size ≡ s.1.linear_heap_size)
        × (allocated t.1 ≡ some size)
  unfolding map_heap output_debug_string output_debug_bytes
  map_heap-ok size (w, h) t e = ground arith

  map_linear_heap-ok :
      (size : ℕ) (s t : W × Heap)
      → map_linear_heap m size s ≡ (ok tt, t)
      → (t.1.heap_size ≡ s.1.heap_size)
        × (t.1.linear_heap_size ≡ size)
        × (allocated t.1 ≡ allocated s.1)
  unfolding map_linear_heap
  map_linear_heap-ok size (w, h) t e = ground arith

  -- Where `init` returns, the two statics hold the sizes chosen from what the kernel reported and
  -- from what they held before, and the allocator has been given a region of the heap's size.
  pub init-ok :
      (w : W) (h : Heap) (t : W × Heap)
      → init m (w, h) ≡ (ok tt, t)
      → (raw : ℕ) × (remaining : ℕ) × ((memory_remaining m w).0 ≡ ok raw)
        × (usable raw ≡ ok remaining)
        × (choose remaining h.heap_size h.linear_heap_size
            ≡ ok (t.1.heap_size, t.1.linear_heap_size))
        × (allocated t.1 ≡ some t.1.heap_size)
  unfolding init
  init-ok w h t e =
      let (raw, s1, got, e1) = bind-ok (outside (memory_remaining m)) _ (w, h) e in
      let (remaining, s2, use1, e2) = bind-ok (lift (usable raw)) _ s1 e1 in
      let (sizes, s3, chosen, e3) =
        bind-ok (lift (choose remaining h.heap_size h.linear_heap_size)) _ s2 e2 in
      let (done, s4, mapped, e4) =
        bind-ok (map_heap m sizes.0) (λ _. map_linear_heap m sizes.1) s3 e3 in
      let first = map_heap-ok sizes.0 s3 s4 mapped in
      let second = map_linear_heap-ok sizes.1 s4 t e4 in
      (
        raw,
        remaining,
        ground arith,
        ground arith,
        ground (arith, first, second),
        ground (arith, first, second),
      )
