-- ===== src/Os/Sharedmem/Regions.antt =====
-- What `map` and `unmap` do to the regions of shared memory that are mapped, over a kernel that
-- knows them.
use ctru_rt.Base.{
  ℕ, ◌+◌, ◌≤◌, ◌<◌, ◌≡◌, ◌⊎◌, refl, arith, List, [], ◌∷◌, All, ◌==◌, if◌then◌else◌, Outcome, ok,
  err, panic, Option, none, some,
}
use ctru_rt.Machine.{Machine, ◌>>=◌, continue, dropping, outside, Keeps, pure, modify}
use ctru_rt.Svc.Calls.{map_memory_block, unmap_memory_block}
use ctru_rt.Os.Handle
use ctru_rt.Os.Mem.{QueryResult}
use ctru_rt.Os.Sharedmem.{
  MappedBlock, query_memory, find_gap, map, map_rounded, map_at, unmap, round_up, or_out_of_memory,
  sharedmem_start, sharedmem_end,
}
use ctru_rt.Os.Sharedmem.Bounds.{IsValid, find_gap-Keeps, find_gap-found, map-IsValid}

-- A mapped region: where it starts, and how long it is.
abbrev pub Region : Type 0
Region = ℕ × ℕ

abbrev pub Apart : Region → Region → Type 0
Apart a b = (a.0 + a.1 ≤ b.0) ⊎ (b.0 + b.1 ≤ a.0)

abbrev pub Inside : Region → Type 0
Inside a = (sharedmem_start ≤ a.0) × (a.0 + a.1 < sharedmem_end)

-- Regions inside of the range for shared memory of which no two overlap.
abbrev pub Separate : List Region → Type 0
Separate [] = Unit
Separate (a ∷ rs) = Inside a × All (Apart a) rs × Separate rs

-- The first region that starts at the address is taken away.
abbrev pub release : ℕ → List Region → List Region
release address [] = []
release address (a ∷ rs) = let rest = release address rs in if a.0 == address then rs else a ∷ rest

-- What a call leaves that changes the regions where it succeeds.
abbrev pub where_ok : {A : Type 0} → Outcome A → List Region → List Region → List Region
where_ok (ok _) new old = new
where_ok (err _) new old = old
where_ok panic new old = old

module _ {W : Type 0} (m : Machine W) where
  -- A kernel that reports as free only what no mapped region overlaps, and whose other calls map
  -- and unmap what they are asked to: `block_size` is the size of the block behind a handle. It
  -- does not look whether a region is free when it maps.
  pub record MappingKernel (regions : W → List Region) (block_size : ℕ → ℕ) : Type 0 where
    pub queried : (address : ℕ) (w : W) → regions (query_memory m address w).1 ≡ regions w
    pub reported_free :
        (address : ℕ) (w w' : W) (block : QueryResult)
        → query_memory m address w ≡ (ok block, w')
        → block.state ≡ 0
        → All (Apart (block.base_process_virtual_address, block.size)) (regions w)
    pub mapped :
        (handle address mine other : ℕ) (w : W)
        → regions (map_memory_block m handle address mine other w).1
          ≡ where_ok
              (map_memory_block m handle address mine other w).0
              ((address, block_size handle) ∷ regions w)
              (regions w)
    pub unmapped :
        (handle address : ℕ) (w : W)
        → regions (unmap_memory_block m handle address w).1
          ≡ where_ok
              (unmap_memory_block m handle address w).0
              (release address (regions w))
              (regions w)
    pub closed : (handle : ℕ) (w : W) → regions (Handle.drop m handle w).1 ≡ regions w

release-All :
    (P : Region → Type 0) (address : ℕ) (rs : List Region) → All P rs → All P (release address rs)
release-All P address [] p = tt
release-All P address (a ∷ rs) p = ground (arith, release-All P address rs p.1)

release-Separate : (address : ℕ) (rs : List Region) → Separate rs → Separate (release address rs)
release-Separate address [] p = tt
release-Separate address (a ∷ rs) p =
    ground (arith, release-Separate address rs p.2, release-All (Apart a) address rs p.1)

-- A part of a region is apart from all that the region is apart from.
part-Apart :
    (a b : Region) (rs : List Region)
    → a.0 ≤ b.0
    → b.0 + b.1 ≤ a.0 + a.1
    → All (Apart a) rs
    → All (Apart b) rs
part-Apart a b [] h k p = tt
part-Apart a b (c ∷ rs) h k p = (omega (arith, p.0), part-Apart a b rs h k p.1)

module _ {W : Type 0} (m : Machine W) (regions : W → List Region) (block_size : ℕ → ℕ)
    (kernel : MappingKernel m regions block_size) where
  -- The kernel's regions are separate, and the mapper's candidate is in its range.
  abbrev pub Good : W × ℕ → Type 0
  Good s = Separate (regions s.0) × IsValid s.1

  abbrev Same : List Region → W → Type 0
  Same before w = regions w ≡ before

  queries_keep : (before : List Region) (address : ℕ) → Keeps (Same before) (query_memory m address)
  queries_keep before address w p = ground (arith, kernel.queried address w)

  -- The chunk that a search finds is apart from all the regions.
  found_apart :
      (candidate size : ℕ) (w w' : W) {a : ℕ} (length : ℕ)
      → IsValid candidate
      → Separate (regions w)
      → length ≤ size
      → find_gap m candidate size w ≡ (ok (some a), w')
      → Separate ((a, length) ∷ regions w)
  found_apart candidate size w w' {a} length v separate h e =
      let (low, high, (u, u', block, seen, gap, same)) =
        find_gap-found m (Same (regions w)) (queries_keep (regions w)) candidate size w w' {a = a} v
          refl e in
      (
        (low, omega arith),
        part-Apart (block.base_process_virtual_address, block.size) (a, length) (regions w)
            (omega (arith, gap.from)) (omega (arith, gap.until))
            (rw same at (kernel.reported_free a u u' block seen gap.free)),
        separate,
      )

  map_at-Good :
      (handle size mine other candidate a : ℕ) (u : W)
      → IsValid candidate
      → Separate (regions u)
      → Separate ((a, block_size handle) ∷ regions u)
      → Separate (regions (map_at m handle size mine other candidate a (u, candidate)).1.0)
  unfolding map_at
  map_at-Good handle size mine other candidate a u v separate new =
      ground (arith, kernel.mapped handle a mine other u)

  dropped :
      {A : Type 0} (handle : ℕ) (r : Outcome A × (W × ℕ))
      → Separate (regions r.1.0)
      → Separate (regions (dropping (outside (Handle.drop m handle)) r).1.0)
  dropped handle (ok a, (u, c)) h = h
  dropped handle (err e, (u, c)) h = ground (arith, kernel.closed handle u)
  dropped handle (panic, (u, c)) h = h

  -- `map` from a good state, on every outcome.
  pub map-Good :
      (handle size mine other candidate : ℕ) (w : W)
      → block_size handle ≤ round_up size
      → Good (w, candidate)
      → Good (map m handle size mine other (w, candidate)).1
  unfolding map map_rounded
  map-Good handle size mine other candidate w fits (separate, v) = (
    go (find_gap m candidate (round_up size) w) refl (
        find_gap-Keeps m (Same (regions w)) (queries_keep (regions w)) candidate (round_up size) w
          refl),
    map-IsValid m handle size mine other candidate w v,
  )
    where
      go :
          (r : Outcome (Option ℕ) × W)
          → find_gap m candidate (round_up size) w ≡ r
          → regions r.1 ≡ regions w
          → Separate (
              regions
                (dropping (outside (Handle.drop m handle)) (
                  continue
                    (r.0, (r.1, candidate))
                    (λ found.
                      or_out_of_memory m found
                      >>= map_at m handle (round_up size) mine other candidate))).1.0)
      go (err e, u) f k = ground (arith, kernel.closed handle u)
      go (panic, u) f k = ground arith
      go (ok none, u) f k = ground (arith, kernel.closed handle u)
      go (ok (some a), u) f k =
          dropped handle (map_at m handle (round_up size) mine other candidate a (u, candidate)) (
            map_at-Good handle (round_up size) mine other candidate a u v (rw k separate) (
              rw k (
                found_apart candidate (round_up size) w u {a = a} (block_size handle) v separate
                  fits f)))

  -- `unmap` of a block in the range, on every outcome.
  pub unmap-Good :
      (block : MappedBlock) (candidate : ℕ) (w : W)
      → IsValid block.start
      → Good (w, candidate)
      → Good (unmap m block (w, candidate)).1
  unfolding unmap
  unmap-Good block candidate w at_start (separate, v) =
      go (unmap_memory_block m block.handle block.start w)
        (kernel.unmapped block.handle block.start w)
    where
      go :
          (r : Outcome (Unit {0}) × W)
          → regions r.1 ≡ where_ok r.0 (release block.start (regions w)) (regions w)
          → Good
              (continue
                (dropping (outside (Handle.drop m block.handle)) (r.0, (r.1, candidate)))
                (λ _. modify (λ _. block.start) >>= λ _. pure block.handle)).1
      go (ok _, u) k = (rw k (release-Separate block.start (regions w) separate), at_start)
      go (err e, u) k = (rw (kernel.closed block.handle u, k) separate, v)
      go (panic, u) k = (rw k separate, v)
