-- ===== src/Thread/Lifecycle.antt =====
-- A thread and the handle that joins it (src/thread.rs), as steps: the wrapper of `spawn` stores
-- the value of the closure and the start function exits the thread; `join` consumes the handle, and
-- reads the value and frees the block where the kernel reports the thread as exited, or returns the
-- error of a wait that fails, at any time. The two sides run in any order; that the wait on a
-- thread's handle succeeds only when the thread has exited is what the kernel promises.
use ctru_rt.Base.{
  ℕ, suc, ◌+◌, ◌<◌, ◌≡◌, refl, arith, Option, none, some, Bool, true, false, ◌⊎◌, inl, inr,
}

-- Where the new thread stands: in the closure, behind the store, and exited.
pub data Phase : Type 0 where
  running stored exited : Phase

pub record Life : Type 0 where
  pub phase : Phase
  -- The place of the return value, and whether its block is allocated.
  pub return_value : Option ℕ
  pub allocated : Bool
  -- What `join` has returned, and whether it has returned an error.
  pub joined : Option ℕ
  pub join_failed : Bool

abbrev pub spawned : Life
spawned = record {
  phase = running;
  return_value = none;
  allocated = true;
  joined = none;
  join_failed = false;
}

-- `value` is what the closure gives. A step of either side that touches the block.
pub data Step (value : ℕ) : Life → Life → Type 0 where
  store :
      {s : Life}
      → s.phase ≡ running
      → Step value s (record s { phase = stored; return_value = some value })
  exit : {s : Life} → s.phase ≡ stored → Step value s (record s { phase = exited })
  join :
      {s : Life}
      → s.phase ≡ exited
      → s.joined ≡ none
      → s.join_failed ≡ false
      → Step value s (record s { allocated = false; joined = s.return_value })
  -- The wait fails: the handle is gone and the block is not freed.
  fail :
      {s : Life}
      → s.joined ≡ none
      → s.join_failed ≡ false
      → Step value s (record s { join_failed = true })

pub data Reach (value : ℕ) (s : Life) : Life → Type 0 where
  here : Reach value s s
  later : {t u : Life} → Reach value s t → Step value t u → Reach value s u

pub record Inv (value : ℕ) (s : Life) : Type 0 where
  pub before : (s.phase ≡ running) ⊎ (s.return_value ≡ some value)
  pub open_ : (s.allocated ≡ true) ⊎ (s.joined ≡ some value)
  pub closed : (s.joined ≡ none) × (s.allocated ≡ true) ⊎ (s.phase ≡ exited) × (s.allocated ≡ false)
  pub not_both : (s.join_failed ≡ false) ⊎ (s.joined ≡ none) × (s.allocated ≡ true)

Step-Inv : {value : ℕ} {s t : Life} → Step value s t → Inv value s → Inv value t
Step-Inv (store p) i = ground (arith, i.before, i.open_, i.closed, i.not_both)
Step-Inv (exit p) i = ground (arith, i.before, i.open_, i.closed, i.not_both)
Step-Inv (join p q r) i = ground (arith, i.before, i.open_, i.closed, i.not_both)
Step-Inv (fail p q) i = ground (arith, i.before, i.open_, i.closed, i.not_both)

Reach-Inv : {value : ℕ} {s : Life} → Reach value spawned s → Inv value s
Reach-Inv here = ground arith
Reach-Inv (later r st) = Step-Inv st (Reach-Inv r)

-- In every state that is reached, the block is allocated as long as the thread has not exited, so
-- that the store finds it, and until `join` has returned, and what `join` has returned is
-- the value of the closure.
pub lifecycle_safe :
    {value : ℕ} {s : Life}
    → Reach value spawned s
    → ((s.phase ≡ exited) ⊎ (s.allocated ≡ true))
      × ((s.joined ≡ none) × (s.allocated ≡ true) ⊎ (s.joined ≡ some value) × (s.allocated ≡ false))
lifecycle_safe r = let i = Reach-Inv r in ground (arith, i.before, i.open_, i.closed)

-- How many steps each side has left.
abbrev phase_left : Phase → ℕ
phase_left running = 2
phase_left stored = 1
phase_left exited = 0

abbrev join_left : Option ℕ → Bool → ℕ
join_left none false = 1
join_left none true = 0
join_left (some _) failed = 0

abbrev remaining : Life → ℕ
remaining s = phase_left s.phase + join_left s.joined s.join_failed

Step-remaining :
    {value : ℕ} {s t : Life} → Step value s t → Inv value s → suc (remaining t) ≡ remaining s
Step-remaining (store p) i = ground (arith, p)
Step-remaining (exit p) i = ground (arith, p)
Step-remaining (join p q r) i = ground (arith, p, q, r, i.before)
Step-remaining (fail p q) i = ground (arith, p, q)

abbrev pub steps : {value : ℕ} {s t : Life} → Reach value s t → ℕ
steps here = 0
steps (later r st) = suc (steps r)

steps-remaining : {value : ℕ} {s : Life} (r : Reach value spawned s) → steps r + remaining s ≡ 3
steps-remaining here = refl
steps-remaining (later r st) = omega (arith, steps-remaining r, Step-remaining st (Reach-Inv r))

-- The thread has exited, and `join` has returned the value and freed the block, or has returned an
-- error with the block still allocated.
abbrev pub Ended : ℕ → Life → Type 0
Ended value s =
    (s.phase ≡ exited)
    × ((s.joined ≡ some value) × (s.join_failed ≡ false) × (s.allocated ≡ false)
        ⊎ (s.joined ≡ none) × (s.join_failed ≡ true) × (s.allocated ≡ true))

exited-Ended :
    {value : ℕ} {s : Life}
    → Inv value s
    → s.phase ≡ exited
    → join_left s.joined s.join_failed ≡ 0
    → Ended value s
exited-Ended {value} {s} i e z = go s.joined refl s.join_failed refl
  where
    go : (j : Option ℕ) → s.joined ≡ j → (b : Bool) → s.join_failed ≡ b → Ended value s
    go none hj false hb = absurd (ground (arith, hj, hb, z))
    go none hj true hb = (e, inr (hj, hb, ground (arith, i.closed, i.open_, hj)))
    go (some v) hj b hb = (
      e,
      inl (
        ground (arith, i.closed, i.open_, hj),
        ground (arith, i.not_both, hj),
        ground (arith, i.closed, hj),
      ),
    )

-- No run has more than three steps: a run of fewer can be continued, by a step of the thread or of
-- `join`, and a run of three has ended, with the thread exited and the block freed with the
-- value returned, or, where the wait has failed, leaked.
pub lifecycle_ends :
    {value : ℕ} {s : Life} (r : Reach value spawned s)
    → (steps r < 3) × ((t : Life) × Step value s t) ⊎ (steps r ≡ 3) × Ended value s
lifecycle_ends {value} {s} r = go s.phase refl s.joined refl s.join_failed refl
  where
    left : steps r + remaining s ≡ 3
    left = steps-remaining r

    go :
        (p : Phase)
        → s.phase ≡ p
        → (j : Option ℕ) → s.joined ≡ j
        → (b : Bool) → s.join_failed ≡ b
        → (steps r < 3) × ((t : Life) × Step value s t) ⊎ (steps r ≡ 3) × Ended value s
    go running hp j hj b hb = inl (ground (arith, left, hp), (_, Step.store hp))
    go stored hp j hj b hb = inl (ground (arith, left, hp), (_, Step.exit hp))
    go exited hp none hj false hb = inl (ground (arith, left, hp, hj, hb), (_, Step.join hp hj hb))
    go exited hp none hj true hb =
        inr
          (ground (arith, left, hp, hj, hb), exited-Ended (Reach-Inv r) hp (ground (arith, hj, hb)))
    go exited hp (some v) hj b hb =
        inr (ground (arith, left, hp, hj), exited-Ended (Reach-Inv r) hp (ground (arith, hj)))
