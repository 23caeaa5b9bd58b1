-- ===== src/Os/Sharedmem/Gap.antt =====
-- What the search for a gap finds, and that it ends.
use ctru_rt.Base.{ℕ, zero, suc, ◌+◌, ◌^◌, ◌≤◌, ◌<◌, ◌≡◌, ◌≢◌, arith, refl, ap, Bool-cases, inl, inr}
use ctru_rt.Base.{Outcome, ok, err, panic, Option, some, true, ◌⊎◌}
use ctru_rt.Machine.{Machine, Sys, continue, bind-ok, Keeps, bind-Keeps}
use ctru_rt.Codes.ResultCode
use ctru_rt.Svc.Calls.{svc_registers}
use ctru_rt.Os.Mem
use ctru_rt.Os.Mem.{QueryResult}
use ctru_rt.Os.Sharedmem.{
  remaining_free, fits, chunk_before, query_memory, scan, scan_block, find_gap_within,
}

-- A free block that holds the chunk.
pub record Gap (block : QueryResult) (address size : ℕ) : Type 0 where
  pub free : block.state ≡ 0
  pub from : block.base_process_virtual_address ≤ address
  pub until : address + size ≤ block.base_process_virtual_address + block.size

fits-Gap :
    (block : QueryResult) (address size : ℕ)
    → fits block address size ≡ true
    → Gap block address size
unfolding fits remaining_free Mem.state_number
fits-Gap block address size h = ground arith

module _ {W : Type 0} (m : Machine W) where
  -- The kernel reported such a block for the address, in a state with the property.
  abbrev pub SeenIn : (W → Type 0) → ℕ → ℕ → Type 0
  SeenIn P address size =
      (w : W) × (w' : W) × (block : QueryResult) × (query_memory m address w ≡ (ok block, w'))
      × Gap block address size
      × P w

  -- The same in some state on the way.
  abbrev pub SeenFree : ℕ → ℕ → Type 0
  SeenFree = SeenIn (λ _. Unit {0})

  -- The region that the kernel reports holds the address it was asked for.
  abbrev pub QueryCovers : Type 0
  QueryCovers =
      (address : ℕ) (w w' : W) (block : QueryResult)
      → query_memory m address w ≡ (ok block, w')
      → (block.base_process_virtual_address ≤ address)
        × (address < block.base_process_virtual_address + block.size)

  -- A round that leads to an address gives its candidate, or goes on behind the block.
  scan_round :
      (fuel candidate end size : ℕ) (w w' : W) {a : ℕ}
      → scan m (suc fuel) candidate end size w ≡ (ok (some a), w')
      → (chunk_before candidate size end ≡ true)
        × (block : QueryResult) × (u : W) × (query_memory m candidate w ≡ (ok block, u))
        × ((fits block candidate size ≡ true) × (a ≡ candidate)
            ⊎ (scan m fuel (candidate + block.size) end size u ≡ (ok (some a), w')))
  unfolding scan scan_block
  scan_round fuel candidate end size w w' {a} e =
      elim (Bool-cases (chunk_before candidate size end)) [
        | inr past ↦ absurd (ground arith)
        | inl before ↦
            let (block, u, seen, rest) =
              bind-ok (query_memory m candidate)
                (scan_block m (λ next. scan m fuel next end size) candidate size) w
                (rw before at e) in
            (before, block, u, seen, ground arith)
      ]

  chunk_before-true :
      (a size end : ℕ) → chunk_before a size end ≡ true → (a + size < end) × (a + size < 2 ^ 32)
  unfolding chunk_before
  chunk_before-true a size end h = ground arith

  -- A property of the outside that the kernel's reports keep is kept by the whole search.
  module _ (P : W → Type 0) (keeps : (address : ℕ) → Keeps P (query_memory m address)) where
    scan_block-Keeps :
        (again : ℕ → Sys W (Option ℕ)) (candidate size : ℕ) (block : QueryResult)
        → ((next : ℕ) → Keeps P (again next))
        → Keeps P (scan_block m again candidate size block)
    unfolding scan_block
    scan_block-Keeps again candidate size block h w p =
        ground (arith, h (candidate + block.size) w p)

    scan-Keeps : (fuel candidate end size : ℕ) → Keeps P (scan m fuel candidate end size)
    unfolding scan
    scan-Keeps zero candidate end size w p = p
    scan-Keeps (suc fuel) candidate end size w p =
        elim (Bool-cases (chunk_before candidate size end)) [
          | inr past ↦ rw past p
          | inl before ↦ rw before (
              bind-Keeps P (query_memory m candidate)
                (scan_block m (λ next. scan m fuel next end size) candidate size) (keeps candidate)
                (λ block.
                  scan_block-Keeps (λ next. scan m fuel next end size) candidate size block
                    (λ next. scan-Keeps fuel next end size))
                w p)
        ]

    scan-found :
        (fuel candidate end size : ℕ) (w w' : W) {a : ℕ}
        → P w
        → scan m fuel candidate end size w ≡ (ok (some a), w')
        → (candidate ≤ a) × (a + size < end) × SeenIn P a size
    unfolding scan
    scan-found zero candidate end size w w' p e = absurd (ground arith)
    scan-found (suc fuel) candidate end size w w' {a} p e =
        let (before, block, u, seen, rest) = scan_round fuel candidate end size w w' e in
        let room = chunk_before-true candidate size end before in
        elim rest [
          | inl (good, here) ↦ rw here (
            omega arith,
            omega (arith, room),
            (w, u, block, seen, fits-Gap block candidate size good, p),
          )
          | inr more ↦
              let (low, high, free) =
                scan-found fuel (candidate + block.size) end size u w'
                  (rw seen at (keeps candidate w p)) more in
              (omega (arith, low), high, free)
        ]

    pub find_gap_within-Keeps : (start end size : ℕ) → Keeps P (find_gap_within m start end size)
    unfolding find_gap_within
    find_gap_within-Keeps start end size = scan-Keeps (suc end) start end size

    -- An address that the search returns lies in the range that was asked for, and so does the
    -- whole chunk; the kernel has reported a free block that holds it, in a state with the property.
    pub find_gap_within-found :
        (start end size : ℕ) (w w' : W) {a : ℕ}
        → P w
        → find_gap_within m start end size w ≡ (ok (some a), w')
        → (start ≤ a) × (a + size < end) × SeenIn P a size
    unfolding find_gap_within
    find_gap_within-found start end size w w' p e = scan-found (suc end) start end size w w' p e

  query_memory-returns : (address : ℕ) (w : W) → (query_memory m address w).0 ≢ panic
  unfolding query_memory svc_registers ResultCode.and
  query_memory-returns address w = ground arith

  -- A round ends if the next one does, which starts at a larger address.
  round_ends :
      (again : ℕ → Sys W (Option ℕ)) (candidate size : ℕ) (w : W)
      → QueryCovers
      → ((next : ℕ) (v : W) → candidate < next → (again next v).0 ≢ panic)
      → (continue (query_memory m candidate w) (scan_block m again candidate size)).0 ≢ panic
  unfolding scan_block
  round_ends again candidate size w covers ends = go (query_memory m candidate w) refl
    where
      go :
          (r : Outcome QueryResult × W)
          → query_memory m candidate w ≡ r
          → (continue r (scan_block m again candidate size)).0 ≢ panic
      go (err x, u) e = λ p. ground arith
      go (panic, u) e = absurd (query_memory-returns candidate w (ap (λ r. r.0) e))
      go (ok block, u) e = ground (
        arith,
        covers candidate w u block e,
        ends (candidate + block.size) u (omega (arith, covers candidate w u block e)),
      )

  scan_ends :
      (fuel candidate end size : ℕ) (w : W)
      → QueryCovers
      → end ≤ fuel + candidate
      → (scan m (suc fuel) candidate end size w).0 ≢ panic
  unfolding scan
  scan_ends zero candidate end size w covers h =
      elim (Bool-cases (chunk_before candidate size end)) [
        | inr past ↦ rw past (λ p. ground arith)
        | inl before ↦ absurd (omega (arith, chunk_before-true candidate size end before))
      ]
  scan_ends (suc fuel) candidate end size w covers h =
      elim (Bool-cases (chunk_before candidate size end)) [
        | inr past ↦ rw past (λ p. ground arith)
        | inl before ↦ rw before (
            round_ends (λ next. scan m (suc fuel) next end size) candidate size w covers
              (λ next v lt. scan_ends fuel next end size v covers (omega arith)))
      ]

  -- Where every region that the kernel reports holds the address it was asked for, the fuel is
  -- enough: the search returns or fails with the kernel's error.
  pub find_gap_within_ends :
      (start end size : ℕ) (w : W) → QueryCovers → (find_gap_within m start end size w).0 ≢ panic
  unfolding find_gap_within
  find_gap_within_ends start end size w covers = scan_ends end start end size w covers (omega arith)
