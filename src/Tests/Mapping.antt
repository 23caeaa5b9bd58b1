-- ===== src/Tests/Mapping.antt =====
-- A kernel that knows which regions of shared memory are mapped, and the mapper over it.
use ctru_rt.Base.{
  ℕ, ◌+◌, ◌≤◌, ◌≡◌, refl, arith, List, [], ◌∷◌, All, Bool, true, not, ◌&&◌, ◌||◌, leb, ◌==◌,
  if◌then◌else◌, ok,
}
use ctru_rt.Machine.{Machine, Register, word, unused}
use ctru_rt.Codes.ResultCode
use ctru_rt.Svc.Calls.{svc_unit, svc_registers, map_memory_block, unmap_memory_block, close_handle}
use ctru_rt.Os.Handle
use ctru_rt.Os.Mem
use ctru_rt.Os.Sharedmem.{
  MappedBlock, query_memory, find_gap, find_gap_within, scan, scan_block, chunk_before, fits,
  remaining_free, next_candidate, map_rounded, map_at, round_up, map, unmap, sharedmem_start,
}
use ctru_rt.Os.Sharedmem.Bounds.{IsValid}
use ctru_rt.Os.Sharedmem.Regions.{Region, Apart, Separate, release, MappingKernel}
use ctru_rt.Os.Sharedmem.Disjoint.{Reach, returned, regions_separate}

-- The page of an address, and whether it overlaps no region.
abbrev apart : Region → Region → Bool
apart a b = leb (a.0 + a.1) b.0 || leb (b.0 + b.1) a.0

abbrev all_apart : Region → List Region → Bool
all_apart a [] = true
all_apart a (b ∷ bs) = apart a b && all_apart a bs

all_apart-All : (a : Region) (bs : List Region) → all_apart a bs ≡ true → All (Apart a) bs
all_apart-All a [] h = tt
all_apart-All a (b ∷ bs) h = ground (arith, all_apart-All a bs)

-- The registers after a query for an address: its page, free or shared.
abbrev page_of : ℕ → List Region → ℕ → ℕ
page_of address regions i =
    if i == 1
    then address
    else if i == 2
    then 0x1000
    else if i == 4 && not (all_apart (address, 0x1000) regions)
    then 6
    else 0

abbrev queried : List Register → List Region → ℕ → ℕ
queried (unused ∷ unused ∷ word address ∷ []) regions = page_of address regions
queried _ regions = λ _. 0

abbrev changed : ℕ → List Register → List Region → List Region
changed n (word handle ∷ word address ∷ more) regions =
    if n == 0x1f
    then (address, 0x1000) ∷ regions
    else if n == 0x20
    then release address regions
    else regions
changed n _ regions = regions

abbrev answer : ℕ → List Register → List Region → (ℕ → ℕ) × List Region
answer n inputs regions =
    (if n == 0x02 then queried inputs regions else λ _. 0, changed n inputs regions)

abbrev kernel : Machine (List Region)
kernel = record {
  svc = answer;
  read_pointer = λ _. [];
  command_buffer = λ _. [];
  store_command_buffer = λ _ regions. regions;
}

maps : MappingKernel kernel (λ regions. regions) (λ _. 0x1000)
unfolding query_memory svc_registers svc_unit map_memory_block unmap_memory_block Handle.drop
    Handle.close close_handle ResultCode.and ResultCode.into_result
maps = record {
  queried = λ address w. ground arith;
  reported_free = λ address w w' block e free. ground (arith, all_apart-All (address, 0x1000) w);
  mapped = λ handle address mine other w. ground arith;
  unmapped = λ handle address w. ground arith;
  closed = λ handle w. ground arith;
}

abbrev block_at : ℕ → MappedBlock
block_at address = record { start = address; size = 0x1000; handle = 9 }

abbrev two_regions : List Region
two_regions = (sharedmem_start + 0x1000, 0x1000) ∷ (sharedmem_start, 0x1000) ∷ []

first_mapped :
    map kernel 9 0xffe 3 0 ([], sharedmem_start)
    ≡ (ok (block_at sharedmem_start), ((sharedmem_start, 0x1000) ∷ [], sharedmem_start + 0x1000))
unfolding map map_rounded map_at find_gap find_gap_within scan scan_block chunk_before fits
    remaining_free next_candidate round_up query_memory svc_registers map_memory_block svc_unit
    ResultCode.and ResultCode.into_result Mem.state_number
first_mapped = refl

second_mapped :
    map kernel 9 0xffe 3 0 ((sharedmem_start, 0x1000) ∷ [], sharedmem_start + 0x1000)
    ≡ (ok (block_at (sharedmem_start + 0x1000)), (two_regions, sharedmem_start + 0x2000))
unfolding map map_rounded map_at find_gap find_gap_within scan scan_block chunk_before fits
    remaining_free next_candidate round_up query_memory svc_registers map_memory_block svc_unit
    ResultCode.and ResultCode.into_result Mem.state_number
second_mapped = refl

first_unmapped :
    unmap kernel (block_at sharedmem_start) (two_regions, sharedmem_start + 0x2000)
    ≡ (ok 9, ((sharedmem_start + 0x1000, 0x1000) ∷ [], sharedmem_start))
unfolding unmap unmap_memory_block svc_unit ResultCode.into_result
first_unmapped = refl

abbrev Reached : List Region × ℕ → List MappedBlock → Type 0
Reached = Reach kernel (λ regions. regions) (λ _. 0x1000) maps

page_fits : 0x1000 ≤ round_up 0xffe
unfolding round_up
page_fits = omega arith

map_again :
    {regions : List Region} {candidate : ℕ} {blocks : List MappedBlock} {block : MappedBlock}
    {t : List Region × ℕ}
    → Reached (regions, candidate) blocks
    → map kernel 9 0xffe 3 0 (regions, candidate) ≡ (ok block, t)
    → Reached t (block ∷ blocks)
map_again {regions} {candidate} {blocks} r e =
    let next : Reached (map kernel 9 0xffe 3 0 (regions, candidate)).1
        (returned (map kernel 9 0xffe 3 0 (regions, candidate)).0 blocks) =
      Reach.mapped 9 0xffe 3 0 r page_fits in
    rw e at next

both_mapped :
    Reached
      (two_regions, sharedmem_start + 0x2000)
      (block_at (sharedmem_start + 0x1000) ∷ block_at sharedmem_start ∷ [])
both_mapped = map_again (map_again (Reach.start refl) first_mapped) second_mapped

second_left :
    Reached
      ((sharedmem_start + 0x1000, 0x1000) ∷ [], sharedmem_start)
      (block_at (sharedmem_start + 0x1000) ∷ [])
second_left =
    let next : Reached
        (unmap kernel (block_at sharedmem_start) (two_regions, sharedmem_start + 0x2000)).1
        (block_at (sharedmem_start + 0x1000) ∷ []) =
      Reach.unmapped (block_at (sharedmem_start + 0x1000) ∷ []) [] (block_at sharedmem_start)
        both_mapped in
    rw first_unmapped at next

third_mapped : map kernel 9 0xffe 3 0 ((sharedmem_start + 0x1000, 0x1000) ∷ [], sharedmem_start) ≡ (
  ok (block_at sharedmem_start),
  ((sharedmem_start, 0x1000) ∷ (sharedmem_start + 0x1000, 0x1000) ∷ [], sharedmem_start + 0x1000),
)
unfolding map map_rounded map_at find_gap find_gap_within scan scan_block chunk_before fits
    remaining_free next_candidate round_up query_memory svc_registers map_memory_block svc_unit
    ResultCode.and ResultCode.into_result Mem.state_number
third_mapped = refl

-- Two blocks are mapped, the first is unmapped, and another takes its place.
regions_separate_example :
    Separate ((sharedmem_start, 0x1000) ∷ (sharedmem_start + 0x1000, 0x1000) ∷ [])
    × IsValid (sharedmem_start + 0x1000)
regions_separate_example =
    regions_separate kernel (λ regions. regions) (λ _. 0x1000) maps
      (map_again second_left third_mapped)
