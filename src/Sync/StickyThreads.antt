-- ===== src/Sync/StickyThreads.antt =====
-- `spin::StickyEvent` of src/sync.rs run by any number of threads on one event: each use of its
-- lock, and each call of the address arbiter, is a step, in any order. Which guards the lock gives
-- out is a parameter.
use ctru_rt.Base.{ℕ, ◌≡◌, ◌≢◌, refl, ap, ◌∙◌, arith, ◌==◌, if◌then◌else◌, Bool, true, ℕ_discrete}
use ctru_rt.Sync.StickyEvent.{State, cleared, signaled}

pub data Guard : Type 0 where
  no_guard read_guard upgradeable_guard write_guard : Guard

-- `spin::RwLock`, over the guards that the threads have: whether a thread may be given one. It does
-- not share the lock between a writer and a reader.
pub record RwLock : Type 1 where
  pub may_read : (ℕ → Guard) → Type 0
  pub may_read_upgradeable : (ℕ → Guard) → Type 0
  pub may_upgrade : (ℕ → Guard) → ℕ → Type 0
  pub read_alone : (g : ℕ → Guard) → may_read g → (i : ℕ) → g i ≢ write_guard
  pub upgrade_alone : (g : ℕ → Guard) (i : ℕ) → may_upgrade g i → (j : ℕ) → g j ≢ read_guard

-- Where a thread stands: in `signal` before and behind the upgrade, in `clear`, and in `wait` before
-- the call of the arbiter, in the call, and after it was woken up.
pub data Pc : Type 0 where
  idle signal_checks signal_stored clear_checks wait_checks waiting woken : Pc

unfoldable pub guard_of : Pc → Guard
guard_of idle = no_guard
guard_of signal_checks = upgradeable_guard
guard_of signal_stored = write_guard
guard_of clear_checks = upgradeable_guard
guard_of wait_checks = read_guard
guard_of waiting = read_guard
guard_of woken = read_guard

abbrev pub guards : (ℕ → Pc) → ℕ → Guard
guards pc i = guard_of (pc i)

-- What the arbiter does to a thread that it wakes up.
unfoldable pub wake_up : Bool → Pc → Pc
wake_up true waiting = woken
wake_up _ pc = pc

pub record System : Type 0 where
  pub state : State
  pub pc : ℕ → Pc

abbrev pub update : (ℕ → Pc) → ℕ → Pc → ℕ → Pc
update pc i p j = if i == j then p else pc j

module _ (lock : RwLock) where
  -- One step of thread `i`, but for the call that wakes others up. A call of the arbiter that fails
  -- returns at once; one that waits returns only when it is woken up.
  pub data Move (state : State) (g : ℕ → Guard) (i : ℕ) : Pc → State → Pc → Type 0 where
    signal_read : lock.may_read_upgradeable g → Move state g i idle state signal_checks
    signal_already : state ≡ signaled → Move state g i signal_checks state idle
    signal_store :
        state ≡ cleared → lock.may_upgrade g i → Move state g i signal_checks signaled signal_stored
    clear_read : lock.may_read_upgradeable g → Move state g i idle state clear_checks
    clear_already : state ≡ cleared → Move state g i clear_checks state idle
    clear_store : state ≡ signaled → lock.may_upgrade g i → Move state g i clear_checks cleared idle
    try_wait_reads : lock.may_read g → Move state g i idle state idle
    wait_read : lock.may_read g → Move state g i idle state wait_checks
    wait_already : state ≡ signaled → Move state g i wait_checks state idle
    wait_fails : state ≡ cleared → Move state g i wait_checks state idle
    wait_sleeps : state ≡ cleared → Move state g i wait_checks state waiting
    wait_returns : Move state g i woken state idle

  -- The call of `wake_up_all` wakes up some of the waiting threads, and gives the guard back.
  pub data Step (s : System) : System → Type 0 where
    act :
        (i : ℕ) {c : State} {p : Pc}
        → Move s.state (guards s.pc) i (s.pc i) c p
        → Step s (record { state = c; pc = update s.pc i p })
    wake :
        (i : ℕ) (some_of : ℕ → Bool)
        → s.pc i ≡ signal_stored
        → Step s
            (record { state = s.state; pc = update (λ j. wake_up (some_of j) (s.pc j)) i idle })

  pub data Reach : System → Type 0 where
    start : (state : State) → Reach (record { state = state; pc = λ _. idle })
    later : {s t : System} → Reach s → Step s t → Reach t

  -- The steps from one state to another.
  pub data Run (s : System) : System → Type 0 where
    stays : Run s s
    goes : {t u : System} → Run s t → Step t u → Run s u

  record Inv (state : State) (pc : ℕ → Pc) : Type 0 where
    alone : (i j : ℕ) → guard_of (pc i) ≡ write_guard → guard_of (pc j) ≢ read_guard
    asleep : (i : ℕ) → pc i ≡ waiting → state ≡ cleared

  -- A thread that comes to hold neither a read guard nor the write guard.
  unshared :
      {state : State} (q : Pc) (pc : ℕ → Pc) (i : ℕ)
      → Inv state pc
      → guard_of q ≢ read_guard
      → guard_of q ≢ write_guard
      → Inv state (update pc i q)
  unfolding guard_of
  unshared q pc i inv r w = record {
    alone = λ a b. ground (arith, inv.alone a b);
    asleep = λ a. ground (arith, inv.asleep a);
  }

  Move-Inv :
      {state c : State} {p q : Pc} (pc : ℕ → Pc) (i : ℕ)
      → Inv state pc
      → pc i ≡ p
      → Move state (guards pc) i p c q
      → Inv c (update pc i q)
  unfolding guard_of
  Move-Inv pc i inv e (signal_read z) = unshared _ pc i inv (λ h. ground arith) (λ h. ground arith)
  Move-Inv pc i inv e (signal_already z) =
      unshared _ pc i inv (λ h. ground arith) (λ h. ground arith)
  Move-Inv pc i inv e (signal_store z u) = record {
    alone = λ a b. ground (arith, inv.alone a b, lock.upgrade_alone (guards pc) i u b);
    asleep = λ a. ground (arith, inv.asleep a, lock.upgrade_alone (guards pc) i u a);
  }
  Move-Inv pc i inv e (clear_read z) = unshared _ pc i inv (λ h. ground arith) (λ h. ground arith)
  Move-Inv pc i inv e (clear_already z) =
      unshared _ pc i inv (λ h. ground arith) (λ h. ground arith)
  Move-Inv pc i inv e (clear_store z u) = record {
    alone = λ a b. ground (arith, inv.alone a b);
    asleep = λ a. ground (arith, inv.asleep a);
  }
  Move-Inv pc i inv e (try_wait_reads z) =
      unshared _ pc i inv (λ h. ground arith) (λ h. ground arith)
  Move-Inv pc i inv e (wait_read z) = record {
    alone = λ a b. ground (arith, inv.alone a b, lock.read_alone (guards pc) z a);
    asleep = λ a. ground (arith, inv.asleep a);
  }
  Move-Inv pc i inv e (wait_already z) = unshared _ pc i inv (λ h. ground arith) (λ h. ground arith)
  Move-Inv pc i inv e (wait_fails z) = unshared _ pc i inv (λ h. ground arith) (λ h. ground arith)
  Move-Inv pc i inv e (wait_sleeps z) = record {
    alone = λ a b. ground (arith, inv.alone a b, inv.alone a i);
    asleep = λ a. ground (arith, inv.asleep a);
  }
  Move-Inv pc i inv e wait_returns = unshared _ pc i inv (λ h. ground arith) (λ h. ground arith)

  Step-Inv : {s t : System} → Inv s.state s.pc → Step s t → Inv t.state t.pc
  unfolding guard_of wake_up
  Step-Inv {s} inv (act i mv) = Move-Inv s.pc i inv refl mv
  Step-Inv {s} inv (wake i some_of e) = record {
    alone = λ a b. ground (arith, inv.alone a b, inv.alone i b);
    asleep = λ a. ground (arith, inv.asleep a);
  }

  Reach-Inv : {s : System} → Reach s → Inv s.state s.pc
  unfolding guard_of
  Reach-Inv (start state) = record { alone = λ i j. ground arith; asleep = λ i. ground arith }
  Reach-Inv (later r st) = Step-Inv (Reach-Inv r) st

  awake : {state c : State} {g : ℕ → Guard} {i : ℕ} {p q : Pc} → Move state g i p c q → p ≢ waiting
  awake (signal_read z) h = ground arith
  awake (signal_already z) h = ground arith
  awake (signal_store z u) h = ground arith
  awake (clear_read z) h = ground arith
  awake (clear_already z) h = ground arith
  awake (clear_store z u) h = ground arith
  awake (try_wait_reads z) h = ground arith
  awake (wait_read z) h = ground arith
  awake (wait_already z) h = ground arith
  awake (wait_fails z) h = ground arith
  awake (wait_sleeps z) h = ground arith
  awake wait_returns h = ground arith

  -- No step of its own or of another thread moves a thread out of the call that it waits in.
  still_waiting :
      {s t : System} (i : ℕ) → Inv s.state s.pc → s.pc i ≡ waiting → Step s t → t.pc i ≡ waiting
  unfolding guard_of wake_up
  still_waiting {s} i inv e (act j mv) = elim (ℕ_discrete j i) [
    | yes own ↦ absurd (awake mv (ap s.pc own ∙ e))
    | no other ↦ ground arith
  ]
  still_waiting {s} i inv e (wake j some_of f) =
      absurd (inv.alone j i (ap guard_of f) (ap guard_of e))

  -- Whatever guards the lock gives out, as long as it does not share itself between a writer and a
  -- reader, and however the threads interleave: a thread that waits for a cleared event holds the
  -- read guard in the call of the arbiter, so that from then on no thread stores the signal, the
  -- event stays cleared and the thread is never woken up.
  pub wait-never_returns :
      {s t : System}
      → Reach s
      → (i : ℕ) → s.pc i ≡ waiting
      → Run s t
      → (t.pc i ≡ waiting) × (t.state ≡ cleared)
  wait-never_returns {s} {t} r i e run = let (inv, there) = along run in (there, inv.asleep i there)
    where
      along : {t : System} → Run s t → Inv t.state t.pc × (t.pc i ≡ waiting)
      along stays = (Reach-Inv r, e)
      along (goes before st) =
          let (inv, there) = along before in (Step-Inv inv st, still_waiting i inv there st)
