-- ===== src/Sync/Threads.antt =====
-- `AtomicHandle::get_or_init` of src/sync.rs run by any number of threads on one cell, each atomic
-- access a step, in any order.
use ctru_rt.Base.{ℕ, ◌≡◌, ◌≢◌, ◌⊎◌, refl, arith, ◌==◌, if◌then◌else◌, okay, fail}
use ctru_rt.Sync.AtomicHandle.{compare_exchange}

-- Where a thread stands, with the handles that are live there.
pub data Pc : Type 0 where
  idle creating : Pc
  holding : (new_handle : ℕ) → Pc
  closing : (new_handle old_handle : ℕ) → Pc
  done : (raw_handle : ℕ) → Pc

-- One step of one thread on the cell.
pub data Move (cell : ℕ) : Pc → ℕ → Pc → Type 0 where
  load_closed : cell ≡ 0 → Move cell idle cell creating
  load_open : cell ≢ 0 → Move cell idle cell (done cell)
  create : {h : ℕ} → h ≢ 0 → Move cell creating cell (holding h)
  win : {h x c : ℕ} → compare_exchange cell 0 h ≡ (okay x, c) → Move cell (holding h) c (done x)
  lose :
      {h x c : ℕ} → compare_exchange cell 0 h ≡ (fail x, c) → Move cell (holding h) c (closing h x)
  close : {h x : ℕ} → Move cell (closing h x) cell (done x)

pub record System : Type 0 where
  pub cell : ℕ
  pub pc : ℕ → Pc

abbrev pub update : (ℕ → Pc) → ℕ → Pc → ℕ → Pc
update pc i p j = if i == j then p else pc j

pub data Step (s : System) : System → Type 0 where
  pick :
      (i : ℕ) {c : ℕ} {p : Pc}
      → Move s.cell (s.pc i) c p
      → Step s (record { cell = c; pc = update s.pc i p })

pub data Reach : System → Type 0 where
  start : Reach (record { cell = 0; pc = λ _. idle })
  later : {s t : System} → Reach s → Step s t → Reach t

-- What a thread's place says of the cell.
abbrev pub Fresh : ℕ → Pc → Type 0
Fresh cell idle = Unit
Fresh cell creating = Unit
Fresh cell (holding h) = h ≢ 0
Fresh cell (closing h x) = (h ≢ 0) × (x ≡ cell) × (cell ≢ 0)
Fresh cell (done x) = ((x ≡ 0) ⊎ (x ≡ cell)) × (cell ≢ 0)

pub record Inv (cell : ℕ) (pc : ℕ → Pc) : Type 0 where
  pub fresh : (i : ℕ) → Fresh cell (pc i)
  pub one_winner : (i j : ℕ) → pc i ≡ done 0 → pc j ≡ done 0 → i ≡ j

-- A step of thread `i` from `p`.
Move-Inv :
    {cell c : ℕ} {p q : Pc} (pc : ℕ → Pc) (i : ℕ)
    → Inv cell pc
    → pc i ≡ p
    → Move cell p c q
    → Inv c (update pc i q)
unfolding compare_exchange
Move-Inv pc i inv e (load_closed z) = record {
  fresh = λ j. ground (arith, inv.fresh j);
  one_winner = λ a b ea eb. ground (arith, inv.one_winner a b);
}
Move-Inv pc i inv e (load_open z) = record {
  fresh = λ j. ground (arith, inv.fresh j);
  one_winner = λ a b ea eb. ground (arith, inv.one_winner a b);
}
Move-Inv pc i inv e (create z) = record {
  fresh = λ j. ground (arith, inv.fresh j);
  one_winner = λ a b ea eb. ground (arith, inv.one_winner a b);
}
Move-Inv pc i inv e (win w) = record {
  fresh = λ j. ground (arith, inv.fresh j, inv.fresh i);
  one_winner = λ a b ea eb. ground (arith, inv.fresh a, inv.fresh b);
}
Move-Inv pc i inv e (lose w) = record {
  fresh = λ j. ground (arith, inv.fresh j, inv.fresh i);
  one_winner = λ a b ea eb. ground (arith, inv.one_winner a b);
}
Move-Inv pc i inv e close = record {
  fresh = λ j. ground (arith, inv.fresh j, inv.fresh i);
  one_winner = λ a b ea eb. ground (arith, inv.one_winner a b, inv.fresh i);
}

Reach-Inv : {s : System} → Reach s → Inv s.cell s.pc
Reach-Inv start = record { fresh = λ i. tt; one_winner = λ i j e f. cc }
Reach-Inv (later {s = s} r (pick i mv)) = Move-Inv s.pc i (Reach-Inv r) refl mv

-- In every state that is reached, a thread that has finished has returned 0 or the handle in the
-- cell, which is open; of two such threads at most one has returned 0.
pub threads_agree :
    {s : System}
    → Reach s
    → (i j x y : ℕ) → i ≢ j
    → s.pc i ≡ done x
    → s.pc j ≡ done y
    → (s.cell ≢ 0) × ((x ≡ 0) ⊎ (x ≡ s.cell)) × ((x ≡ s.cell) ⊎ (y ≡ s.cell))
threads_agree {s} r i j x y ne ei ej =
    let inv = Reach-Inv r in ground (arith, inv.fresh i, inv.fresh j, inv.one_winner i j)
