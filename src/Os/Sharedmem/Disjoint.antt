-- ===== src/Os/Sharedmem/Disjoint.antt =====
-- The blocks that are mapped through the mapper stay apart, along any sequence of its calls.
use ctru_rt.Base.{ℕ, ◌≤◌, ◌≡◌, refl, arith, List, [], ◌∷◌, ◌++◌, All, Outcome, ok, err, panic}
use ctru_rt.Machine.{Machine}
use ctru_rt.Os.Sharedmem.{MappedBlock, map, unmap, round_up, sharedmem_start}
use ctru_rt.Os.Sharedmem.Bounds.{IsValid, map-ok}
use ctru_rt.Os.Sharedmem.Regions.{Region, Separate, MappingKernel, Good, map-Good, unmap-Good}

-- The blocks with the one that a call has returned.
abbrev pub returned : Outcome MappedBlock → List MappedBlock → List MappedBlock
returned (ok block) blocks = block ∷ blocks
returned (err _) blocks = blocks
returned panic blocks = blocks

module _ {W : Type 0} (m : Machine W) (regions : W → List Region) (block_size : ℕ → ℕ)
    (kernel : MappingKernel m regions block_size) where
  -- The states that calls of `map` and `unmap` lead to from one with no region, and the blocks that
  -- `map` has returned and that have not been passed to `unmap`.
  pub data Reach : W × ℕ → List MappedBlock → Type 0 where
    start : {w : W} → regions w ≡ [] → Reach (w, sharedmem_start) []
    mapped :
        {w : W} {candidate : ℕ} {blocks : List MappedBlock} (handle size mine other : ℕ)
        → Reach (w, candidate) blocks
        → block_size handle ≤ round_up size
        → Reach
            (map m handle size mine other (w, candidate)).1
            (returned (map m handle size mine other (w, candidate)).0 blocks)
    unmapped :
        {w : W} {candidate : ℕ} (before behind : List MappedBlock) (block : MappedBlock)
        → Reach (w, candidate) (before ++ block ∷ behind)
        → Reach (unmap m block (w, candidate)).1 (before ++ behind)

  abbrev pub Placed : MappedBlock → Type 0
  Placed block = IsValid block.start

  All-without :
      (before behind : List MappedBlock) (block : MappedBlock)
      → All Placed (before ++ block ∷ behind)
      → Placed block × All Placed (before ++ behind)
  All-without [] behind block p = p
  All-without (b ∷ before) behind block p =
      let rest = All-without before behind block p.1 in (rest.0, (p.0, rest.1))

  returned-Placed :
      (handle size mine other candidate : ℕ) (w : W) (blocks : List MappedBlock)
      → IsValid candidate
      → All Placed blocks
      → All Placed (returned (map m handle size mine other (w, candidate)).0 blocks)
  returned-Placed handle size mine other candidate w blocks v p =
      go (map m handle size mine other (w, candidate)) refl
    where
      go :
          (r : Outcome MappedBlock × (W × ℕ))
          → map m handle size mine other (w, candidate) ≡ r
          → All Placed (returned r.0 blocks)
      go (err e, t) k = p
      go (panic, t) k = p
      go (ok block, t) k =
          let facts = map-ok m handle size mine other candidate w t {block = block} v k in
          (record { low = facts.0; high = omega (arith, facts) }, p)

  reach-Good :
      {s : W × ℕ} {blocks : List MappedBlock}
      → Reach s blocks
      → Good m regions block_size kernel s × All Placed blocks
  reach-Good (Reach.start empty) =
      ((rw empty tt, record { low = omega arith; high = omega arith }), tt)
  reach-Good (Reach.mapped {w} {candidate} {blocks} handle size mine other r fits) =
      let (good, placed) = reach-Good r in
      (
        map-Good m regions block_size kernel handle size mine other candidate w fits good,
        returned-Placed handle size mine other candidate w blocks good.1 placed,
      )
  reach-Good (Reach.unmapped {w} {candidate} before behind block r) =
      let (good, placed) = reach-Good r in
      let (here, rest) = All-without before behind block placed in
      (unmap-Good m regions block_size kernel block candidate w here good, rest)

  -- Over a kernel that reports as free only what no mapped region overlaps, and where no block is
  -- larger than the rounded size it is mapped with: after any sequence of calls of `map` and
  -- `unmap` that starts with no region, whether they succeed or fail, the mapped regions lie in the
  -- range for shared memory and no two of them overlap, and the candidate is in the range.
  pub regions_separate :
      {w : W} {candidate : ℕ} {blocks : List MappedBlock}
      → Reach (w, candidate) blocks
      → Separate (regions w) × IsValid candidate
  regions_separate r = (reach-Good r).0
