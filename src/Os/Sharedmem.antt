-- ===== src/Os/Sharedmem.antt =====
-- src/os/sharedmem.rs: finding free address space for a shared memory block, mapping and
-- unmapping. An address is a 32-bit usize; the mapper's state is its `next_candidate`.
pub mod Gap
pub mod Bounds
pub mod Regions
pub mod Disjoint
use ctru_rt.Base.{
  ℕ, zero, suc, ◌+◌, ◌-◌, ◌/◌, ◌^◌, min, ltb, leb, ◌==◌, if◌then◌else◌, ◌&&◌, Bool, true, false,
}
use ctru_rt.Base.{bit_and, u32, List, [], ◌∷◌, Outcome, ok, err, panic, Option, none, some}
use ctru_rt.Codes.ErrorCode
use ctru_rt.Machine.{Machine, Register, unused, word, Sys, ◌>>=◌, ◌>>◌, pure, lift, panics, fails}
use ctru_rt.Machine.{outside, modify, get, on_error}
use ctru_rt.Svc.Calls.{svc_registers, map_memory_block, unmap_memory_block}
use ctru_rt.Os.Handle
use ctru_rt.Os.Mem
use ctru_rt.Os.Mem.{QueryResult}

abbrev pub sharedmem_start : ℕ
sharedmem_start = 0x1000_0000

abbrev pub sharedmem_end : ℕ
sharedmem_end = 0x1400_0000

pub record MappedBlock : Type 0 where
  pub start : ℕ
  pub size : ℕ
  pub handle : ℕ

-- The views of a block: its size, its address, and the words that a slice of it has.
unfoldable pub block_size : MappedBlock → ℕ
block_size block = block.size

unfoldable pub as_ptr : MappedBlock → ℕ
as_ptr block = block.start

unfoldable pub slice_words : MappedBlock → ℕ
slice_words block = block.size / 4

-- `SharedMemoryMapper::new`, its `next_candidate`.
unfoldable pub new_mapper : ℕ
new_mapper = sharedmem_start

unfoldable pub remaining_free : QueryResult → ℕ → Option ℕ
remaining_free block address =
    if ltb address block.base_process_virtual_address
    then none
    else let offset_in_block = address - block.base_process_virtual_address in
      if ltb block.size offset_in_block then none else some (block.size - offset_in_block)

-- The block is free, and enough of it lies behind the address.
unfoldable pub fits : QueryResult → ℕ → ℕ → Bool
fits block address size =
    (block.state == Mem.state_number Mem.free_state)
    && elim (remaining_free block address) [ none ↦ false | some free ↦ leb size free ]

-- The test of the loop: `checked_add`, and a chunk that ends before `end`.
unfoldable pub chunk_before : ℕ → ℕ → ℕ → Bool
chunk_before address size end = ltb (address + size) (2 ^ 32) && ltb (address + size) end

-- `(size + 0xFFF) & !0xFFF`
unfoldable pub round_up : ℕ → ℕ
round_up size = bit_and (u32 (size + 0xFFF)) (2 ^ 32 - 1 - 0xfff)

module _ {W : Type 0} (m : Machine W) where
  -- `svc::query_memory`
  unfoldable pub query_memory : ℕ → Sys W QueryResult
  query_memory addr = do
    r ← svc_registers m 0x02 (unused ∷ unused ∷ word addr ∷ [])
    pure (record {
      base_process_virtual_address = r 1;
      size = r 2;
      permission = r 3;
      state = r 4;
      page_flags = r 5;
    })

  -- What a round does with the block that was reported; `again` is the next round.
  unfoldable pub scan_block : (ℕ → Sys W (Option ℕ)) → ℕ → ℕ → QueryResult → Sys W (Option ℕ)
  scan_block again candidate_addr size block =
      if fits block candidate_addr size
      then pure (some candidate_addr)
      else if ltb (candidate_addr + block.size) (2 ^ 32)
      then again (candidate_addr + block.size)
      else pure none

  -- The loop of `find_gap_within` on fuel; running out of it panics.
  unfoldable pub scan : ℕ → ℕ → ℕ → ℕ → Sys W (Option ℕ)
  scan zero candidate_addr end size = panics
  scan (suc fuel) candidate_addr end size =
      if chunk_before candidate_addr size end
      then (query_memory candidate_addr
          >>= scan_block (λ next. scan fuel next end size) candidate_addr size)
      else pure none

  -- A block is not empty, so that the address moves on: there are at most `end` rounds.
  unfoldable pub find_gap_within : ℕ → ℕ → ℕ → Sys W (Option ℕ)
  find_gap_within start end size = scan (suc end) start end size

  -- The `match` on the first search, with the second one.
  abbrev or_else : Sys W (Option ℕ) → Option ℕ → Sys W (Option ℕ)
  or_else second (some address) = pure (some address)
  or_else second none = second

  unfoldable pub find_gap : ℕ → ℕ → Sys W (Option ℕ)
  find_gap candidate size = do
    first ← find_gap_within candidate sharedmem_end size
    or_else (find_gap_within sharedmem_start candidate size) first

  unfoldable pub next_candidate : ℕ → ℕ → ℕ
  next_candidate candidate size = min (min (candidate + size) (2 ^ 32 - 1)) sharedmem_end

  -- `ok_or(ERROR_OUT_OF_MEMORY)?`
  abbrev or_out_of_memory : Option ℕ → Sys (W × ℕ) ℕ
  or_out_of_memory none = fails ErrorCode.out_of_memory
  or_out_of_memory (some address) = pure address

  -- The rest of `map` behind the search.
  unfoldable pub map_at : ℕ → ℕ → ℕ → ℕ → ℕ → ℕ → Sys (W × ℕ) MappedBlock
  map_at memory_handle size my_permissions other_permissions candidate address = do
    modify (λ _. next_candidate candidate size)
    outside (map_memory_block m memory_handle address my_permissions other_permissions)
    pure (record { start = address; size = size; handle = memory_handle })

  unfoldable pub map_rounded : ℕ → ℕ → ℕ → ℕ → Sys (W × ℕ) MappedBlock
  map_rounded memory_handle size my_permissions other_permissions = do
    candidate ← get
    found ← outside (find_gap candidate size)
    address ← or_out_of_memory found
    map_at memory_handle size my_permissions other_permissions candidate address

  -- `SharedMemoryMapper::map`; on an error the owned handle is dropped.
  unfoldable pub map : ℕ → ℕ → ℕ → ℕ → Sys (W × ℕ) MappedBlock
  map memory_handle size my_permissions other_permissions =
      on_error (outside (Handle.drop m memory_handle))
        (map_rounded memory_handle (round_up size) my_permissions other_permissions)

  -- `SharedMemoryMapper::unmap`; on an error the block is dropped, with its handle.
  unfoldable pub unmap : MappedBlock → Sys (W × ℕ) ℕ
  unmap block = do
    on_error (outside (Handle.drop m block.handle))
        (outside (unmap_memory_block m block.handle block.start))
    modify (λ _. block.start)
    pure block.handle
