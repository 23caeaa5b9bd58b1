-- ===== src/Tests/Kernel.antt =====
-- The calls of the kernel, over the small one of the tests.
use ctru_rt.Base.{
  ℕ, ◌+◌, ◌≤◌, ◌<◌, min, [], ◌∷◌, ◌≡◌, ◌≢◌, ◌⊎◌, refl, arith, ok, err, panic, none, some, get_or,
}
use ctru_rt.Codes.ErrorCode
use ctru_rt.Codes.ResultCode
use ctru_rt.Tests.{kernel}
use ctru_rt.Base.{List}
use ctru_rt.Srv.{}
use ctru_rt.Svc.Calls.{
  svc_word, control_memory, get_resource_limit, get_resource_limit_values,
  get_resource_limit_current_values, handle_from_register, close_handle, svc_registers, svc_handle,
  svc_unit, map_memory_block,
}
use ctru_rt.Svc.Timeout
use ctru_rt.Svc.Waiting.{
  wait_synchronization_many, wait_synchronization_any, wait_synchronization_all, any-waits_for_all,
}
use ctru_rt.Ipc.Request.{State, IpcRequest, command, dispatch}
use ctru_rt.Ipc.Dispatch.{answer, reply_buffer, dispatch_lem}
use ctru_rt.Os.Mem
use ctru_rt.Os.Handle
use ctru_rt.Os.Reslimit
use ctru_rt.Os.Handle.{closed_handle}
use ctru_rt.Os.Sharedmem.{
  MappedBlock, find_gap, find_gap_within, scan, scan_block, chunk_before, fits, remaining_free,
  next_candidate, map_rounded, map_at, round_up, map, sharedmem_start, sharedmem_end, query_memory,
}
use ctru_rt.Os.Sharedmem.Gap.{SeenFree, QueryCovers, find_gap_within_ends}
use ctru_rt.Os.Sharedmem.Bounds.{map-ok}
use ctru_rt.Svc.System.{output_debug_string}
use ctru_rt.Svc.Calls.{output_debug_bytes}
use ctru_rt.Heap.{
  page_align, map_heap, map_linear_heap, Heap, usable, choose, init, memory_remaining,
}
use ctru_rt.Heap.Init.{allocated, init-ok}
use ctru_rt.Heap.Split.{choose_lem}
use ctru_rt.Graphics.{vram_start, vram_size}
use ctru_rt.Start.{announced, start, start_lem}
use ctru_rt.Base.{Option, Outcome}

abbrev request : IpcRequest State.normal
request = command (0 ∷ 0 ∷ 0 ∷ []) 0x16

dispatch_lem_example :
    ((answer kernel request 5 []).0 0 ≢ 0)
      × (dispatch kernel request 5 []
          ≡ (err ((answer kernel request 5 []).0 0), (answer kernel request 5 []).1))
    ⊎ ((answer kernel request 5 []).0 0 ≡ 0)
      × (get_or (reply_buffer kernel request 5 []) 1 0 ≢ 0)
      × (dispatch kernel request 5 []
          ≡ (err (get_or (reply_buffer kernel request 5 []) 1 0), (answer kernel request 5 []).1))
    ⊎ ((answer kernel request 5 []).0 0 ≡ 0)
      × (get_or (reply_buffer kernel request 5 []) 1 0 ≡ 0)
      × (dispatch kernel request 5 [] ≡ (
        ok (record { cmdbuf = reply_buffer kernel request 5 []; read_ptr = 2 }),
        (answer kernel request 5 []).1,
      ))
dispatch_lem_example = dispatch_lem kernel request 5 []

kernel_covers : QueryCovers kernel
unfolding query_memory svc_registers ResultCode.and ResultCode.into_result
kernel_covers address w w' block e = ground arith

abbrev block : MappedBlock
block = record { start = sharedmem_start; size = 0x1000; handle = 9 }

first_block :
    map kernel 9 0xffe 3 0 ([], sharedmem_start) ≡ (ok block, ([], sharedmem_start + 0x1000))
unfolding map map_rounded map_at find_gap find_gap_within scan scan_block chunk_before fits
    remaining_free next_candidate round_up query_memory svc_registers map_memory_block svc_unit
    ResultCode.and ResultCode.into_result Mem.state_number
first_block = refl

abbrev nothing : ℕ
nothing = 0

abbrev forty : ℕ
forty = 40

choose_lem_example :
    (100 < 0 + 40) × (choose 100 0 40 ≡ err ErrorCode.out_of_memory)
    ⊎ ((0 + 40 ≤ 100)
        × (h : ℕ) × (l : ℕ) × (choose 100 0 40 ≡ ok (h, l))
        × (h + l ≤ 100)
        × ((nothing ≡ 0) ⊎ (h ≡ 0))
        × ((forty ≡ 0) ⊎ (l ≡ 40))
        × ((nothing ≢ 0) × (forty ≢ 0) ⊎ (h + l ≡ 100)))
choose_lem_example = choose_lem 100 0 40 (omega arith) (omega arith)

abbrev memory_handle : ℕ
memory_handle = 9

map-ok_example :
    (sharedmem_start ≤ sharedmem_start)
    × (sharedmem_start + 0x1000 < sharedmem_end)
    × (0x1000 ≡ round_up 0xffe)
    × (memory_handle ≡ memory_handle)
    × (sharedmem_start + 0x1000 ≡ min (sharedmem_start + round_up 0xffe) sharedmem_end)
    × SeenFree kernel sharedmem_start 0x1000
map-ok_example =
    map-ok kernel memory_handle 0xffe 3 0 sharedmem_start [] ([], sharedmem_start + 0x1000)
      {block = block} (record { low = omega arith; high = omega arith }) first_block

find_gap_within_ends_example : (find_gap_within kernel 0x1000 0x9000 0x2000 []).0 ≢ panic
find_gap_within_ends_example = find_gap_within_ends kernel 0x1000 0x9000 0x2000 [] kernel_covers

waited : wait_synchronization_any kernel (5 ∷ 6 ∷ []) Timeout.forever [] ≡ (ok 5, [])
unfolding wait_synchronization_any wait_synchronization_many svc_word svc_registers ResultCode.and
    ResultCode.into_result
waited = refl

any-waits_for_all_example :
    wait_synchronization_all kernel (5 ∷ 6 ∷ []) Timeout.forever [] ≡ (ok tt, [])
any-waits_for_all_example = any-waits_for_all kernel (5 ∷ 6 ∷ []) Timeout.forever [] [] 5 waited

abbrev before : Heap
before = record { heap_size = 0; linear_heap_size = 0x100_0000; allocator = none }

abbrev after : Heap
after = record {
  heap_size = 0x300_0000;
  linear_heap_size = 0x100_0000;
  allocator = some (5, 0x300_0000);
}

initialised : init kernel ([], before) ≡ (ok tt, (0x400_0000 ∷ 0 ∷ [], after))
unfolding init memory_remaining Reslimit.process_limits Reslimit.remaining Reslimit.current
    Reslimit.limit Reslimit.limit_type_number get_resource_limit get_resource_limit_values
    get_resource_limit_current_values handle_from_register svc_unit svc_registers svc_word
    ResultCode.and ResultCode.into_result usable choose page_align map_heap map_linear_heap
    control_memory Mem.new Mem.linear Mem.allocate Mem.permission_number Handle.drop close_handle
    svc_handle Handle.close output_debug_string output_debug_bytes
initialised = refl

init-ok_example :
    (raw : ℕ) × (remaining : ℕ) × ((memory_remaining kernel []).0 ≡ ok raw)
    × (usable raw ≡ ok remaining)
    × (choose remaining before.heap_size before.linear_heap_size
        ≡ ok (after.heap_size, after.linear_heap_size))
    × (allocated after ≡ some after.heap_size)
init-ok_example = init-ok kernel [] before (0x400_0000 ∷ 0 ∷ [], after) initialised

-- A program that does nothing.
abbrev idle :
    (List ℕ × Heap) × Option (ℕ × ℕ) → Outcome (Unit {0}) × ((List ℕ × Heap) × Option (ℕ × ℕ))
idle s = (ok tt, s)

start_lem_example :
    ((w' : List ℕ) × (h' : Heap) × (init kernel ([], before) ≡ (ok tt, (w', h')))
      × (allocated h' ≡ some h'.heap_size)
      × (start kernel (72 ∷ []) (86 ∷ []) idle (([], before), none)
          ≡ idle ((announced kernel (72 ∷ []) (86 ∷ []) w', h'), some (vram_start, vram_size))))
    ⊎ ((init kernel ([], before)).0 ≢ ok tt)
      × ((start kernel (72 ∷ []) (86 ∷ []) idle (([], before), none)).0 ≡ panic)
start_lem_example = start_lem kernel (72 ∷ []) (86 ∷ []) idle [] before none
