-- ===== src/Os/Sharedmem/Bounds.antt =====
-- Where a mapped block lies, and the range of `next_candidate`.
use ctru_rt.Base.{
  ℕ, min, ◌+◌, ◌-◌, ◌/◌, ◌%◌, ◌^◌, ◌≤◌, ◌<◌, ◌≡◌, arith, bit_and-shift, bit_and-mask,
}
use ctru_rt.Base.{ok, Option, none, some}
use ctru_rt.Os.Handle
use ctru_rt.Machine.{Machine, ◌>>=◌, bind-ok, on_error-ok, outside, Keeps, bind-Keeps}
use ctru_rt.Os.Sharedmem.{
  MappedBlock, round_up, find_gap_within, find_gap, next_candidate, map_at, map_rounded, map,
  or_else, or_out_of_memory, query_memory, sharedmem_start, sharedmem_end,
}
use ctru_rt.Os.Sharedmem.Gap.{SeenFree, SeenIn, find_gap_within-found, find_gap_within-Keeps}

-- A size is rounded up to whole pages, while this does not leave 32 bits.
pub round_up_lem :
    (size : ℕ)
    → size + 0xFFF < 2 ^ 32
    → (round_up size % 2 ^ 12 ≡ 0) × (size ≤ round_up size) × (round_up size < size + 2 ^ 12)
unfolding round_up
round_up_lem size h = omega (
  arith,
  bit_and-shift 12 ((size + 0xFFF) % 2 ^ 32) (2 ^ 20 - 1),
  bit_and-mask 20 ((size + 0xFFF) % 2 ^ 32 / 2 ^ 12),
)

-- The candidate lies in the region for shared memory, or at its end.
pub record IsValid (candidate : ℕ) : Type 0 where
  pub low : sharedmem_start ≤ candidate
  pub high : candidate ≤ sharedmem_end

module _ {W : Type 0} (m : Machine W) where
  module _ (P : W → Type 0) (keeps : (address : ℕ) → Keeps P (query_memory m address)) where
    pub find_gap-Keeps : (candidate size : ℕ) → Keeps P (find_gap m candidate size)
    unfolding find_gap
    find_gap-Keeps candidate size =
        bind-Keeps P (find_gap_within m candidate sharedmem_end size)
          (or_else m (find_gap_within m sharedmem_start candidate size))
          (find_gap_within-Keeps m P keeps candidate sharedmem_end size) second
      where
        second :
            (first : Option ℕ)
            → Keeps P (or_else m (find_gap_within m sharedmem_start candidate size) first)
        second (some a) u q = q
        second none u q = find_gap_within-Keeps m P keeps sharedmem_start candidate size u q

    pub find_gap-found :
        (candidate size : ℕ) (w w' : W) {a : ℕ}
        → IsValid candidate
        → P w
        → find_gap m candidate size w ≡ (ok (some a), w')
        → (sharedmem_start ≤ a) × (a + size < sharedmem_end) × SeenIn m P a size
    unfolding find_gap
    find_gap-found candidate size w w' {a} v p e =
        let (first, u, searched, rest) =
          bind-ok (find_gap_within m candidate sharedmem_end size)
            (or_else m (find_gap_within m sharedmem_start candidate size)) w e in
        go first u searched rest
      where
        go :
            (first : Option ℕ) (u : W)
            → find_gap_within m candidate sharedmem_end size w ≡ (ok first, u)
            → or_else m (find_gap_within m sharedmem_start candidate size) first u
              ≡ (ok (some a), w')
            → (sharedmem_start ≤ a) × (a + size < sharedmem_end) × SeenIn m P a size
        go none u s r =
            let kept = find_gap_within-Keeps m P keeps candidate sharedmem_end size w p in
            let (low, high, free) =
              find_gap_within-found m P keeps sharedmem_start candidate size u w' (rw s at kept)
                r in
            (low, omega arith, free)
        go (some b) u s r =
            let first_found =
              find_gap_within-found m P keeps candidate sharedmem_end size w u p s in
            let same : b ≡ a = ground arith in
            rw (← same) (omega (arith, first_found), omega (arith, first_found), first_found.2)

  -- From a candidate in its range every outcome of `map` leaves it there.
  pub map-IsValid :
      (handle size mine other candidate : ℕ) (w : W)
      → IsValid candidate
      → IsValid (map m handle size mine other (w, candidate)).1.1
  unfolding map map_rounded map_at next_candidate
  map-IsValid handle size mine other candidate w v = ground arith

  map_at-ok :
      (handle size mine other candidate address : ℕ) (s t : W × ℕ) {block : MappedBlock}
      → map_at m handle size mine other candidate address s ≡ (ok block, t)
      → (block ≡ record { start = address; size = size; handle = handle })
        × (t.1 ≡ next_candidate m candidate size)
  unfolding map_at
  map_at-ok handle size mine other candidate address (w, c) t e = ground arith

  -- From a candidate in its range, a block that `map` returns lies in the region for shared memory,
  -- has the rounded size and the handle, and the kernel has reported its whole range as free;
  -- `next_candidate` is advanced from the old candidate by the size, at most to the end of the
  -- region.
  pub map-ok :
      (handle size mine other candidate : ℕ) (w : W) (t : W × ℕ) {block : MappedBlock}
      → IsValid candidate
      → map m handle size mine other (w, candidate) ≡ (ok block, t)
      → (sharedmem_start ≤ block.start)
        × (block.start + block.size < sharedmem_end)
        × (block.size ≡ round_up size)
        × (block.handle ≡ handle)
        × (t.1 ≡ min (candidate + round_up size) sharedmem_end)
        × SeenFree m block.start block.size
  unfolding map map_rounded next_candidate
  map-ok handle size mine other candidate w t {block} v e =
      let e0 =
        on_error-ok (outside (Handle.drop m handle))
          (map_rounded m handle (round_up size) mine other) (w, candidate) e in
      let (found, s1, searched, e1) =
        bind-ok (outside (find_gap m candidate (round_up size)))
          (λ found.
            or_out_of_memory m found >>= map_at m handle (round_up size) mine other candidate)
          (w, candidate) e0 in
      let (address, s2, chosen, e2) =
        bind-ok (or_out_of_memory m found) (map_at m handle (round_up size) mine other candidate) s1
          e1 in
      let last = map_at-ok handle (round_up size) mine other candidate address s2 t e2 in
      go found s1 searched address s2 chosen last
    where
      go :
          (found : Option ℕ) (s1 : W × ℕ)
          → outside (find_gap m candidate (round_up size)) (w, candidate) ≡ (ok found, s1)
          → (address : ℕ) (s2 : W × ℕ) → or_out_of_memory m found s1 ≡ (ok address, s2)
          → (block ≡ record { start = address; size = round_up size; handle = handle })
            × (t.1 ≡ next_candidate m candidate (round_up size))
          → (sharedmem_start ≤ block.start)
            × (block.start + block.size < sharedmem_end)
            × (block.size ≡ round_up size)
            × (block.handle ≡ handle)
            × (t.1 ≡ min (candidate + round_up size) sharedmem_end)
            × SeenFree m block.start block.size
      go none s1 s address s2 c l = absurd (ground arith)
      go (some a) (u, x) s address s2 c l =
          let f =
            find_gap-found (λ _. Unit {0}) (λ _ _ _. tt) candidate (round_up size) w u {a = a} v tt
              (ground arith) in
          let here : address ≡ a = ground arith in
          (
            ground (arith, f),
            ground (arith, f),
            ground arith,
            ground arith,
            omega (arith, l),
            rw (l.0, here) f.2,
          )
