-- ===== src/Sync/Mutex.antt =====
-- `OsMutex` of src/sync.rs over its `AtomicHandle`, and the traits of `lock_api` that it has.
use ctru_rt.Base.{ℕ, Bool, true, false, ok, err, panic, ◌≡◌, arith}
use ctru_rt.Machine.{Machine, Sys, ◌>>=◌, pure, outside, expect}
use ctru_rt.Os.Handle.{closed_handle}
use ctru_rt.Svc.Calls.{create_mutex, release_mutex}
use ctru_rt.Svc.Waiting.{wait_synchronization}
use ctru_rt.Svc.Timeout
use ctru_rt.Sync.AtomicHandle
use ctru_rt.Sync.AtomicHandle.{get_or_init, get_or_init_creates}

-- `.is_ok()`
abbrev succeeds : {W : Type 0} → Sys W (Unit {0}) → Sys W Bool
succeeds m w =
    let (r, w') = m w in
    elim r [ ok _ ↦ (ok true, w') | err _ ↦ (ok false, w') | panic ↦ (panic, w') ]

-- `OsMutex::from_handle`, and `RawMutex::INIT`.
unfoldable pub from_handle : ℕ → ℕ
from_handle handle = AtomicHandle.from_handle handle

unfoldable pub init : ℕ
unfolding AtomicHandle.new_closed
init = AtomicHandle.new_closed

-- A `todo!`.
unfoldable pub destroy : {W : Type 0} → Sys W (Unit {0})
destroy w = (panic, w)

module _ {W : Type 0} (m : Machine W) where
  unfoldable pub new : Sys W ℕ
  new = create_mutex m false >>= λ handle. pure (AtomicHandle.from_handle handle)

  -- `OsMutex::lock` and `unlock`, on the handle as it is.
  unfoldable pub lock_timeout : ℕ → ℕ → Sys W (Unit {0})
  lock_timeout cell timeout = wait_synchronization m cell timeout

  unfoldable pub unlock_handle : ℕ → Sys W (Unit {0})
  unlock_handle cell = release_mutex m cell

  unfoldable pub get : (W × ℕ → W × ℕ) → Sys (W × ℕ) ℕ
  get others = get_or_init m (expect (create_mutex m true)) others

  unfoldable pub lock : (W × ℕ → W × ℕ) → Sys (W × ℕ) (Unit {0})
  lock others = do
    handle ← get others
    expect (outside (wait_synchronization m handle Timeout.forever))

  unfoldable pub try_lock_for : (W × ℕ → W × ℕ) → ℕ → Sys (W × ℕ) Bool
  try_lock_for others timeout = do
    handle ← get others
    succeeds (outside (wait_synchronization m handle timeout))

  unfoldable pub try_lock : (W × ℕ → W × ℕ) → Sys (W × ℕ) Bool
  try_lock others = try_lock_for others Timeout.none

  -- The deadline and the present as tick counts.
  unfoldable pub try_lock_until : (W × ℕ → W × ℕ) → ℕ → ℕ → Sys (W × ℕ) Bool
  try_lock_until others deadline now = try_lock_for others (Timeout.until_deadline deadline now)

  unfoldable pub unlock : (W × ℕ → W × ℕ) → Sys (W × ℕ) (Unit {0})
  unlock others = do handle ← get others; expect (outside (release_mutex m handle))

  -- The first use of a mutex that was made by `INIT`, with no other thread, where the
  -- kernel creates a mutex `h`: this is kept in the cell, and the wait is on handle 0 instead.
  pub lock_first :
      (w w' : W) (h : ℕ)
      → create_mutex m true w ≡ (ok h, w')
      → lock (λ s. s) (w, closed_handle)
        ≡ expect (outside (wait_synchronization m closed_handle Timeout.forever)) (w', h)
  unfolding lock get
  lock_first w w' h e =
      ground (arith, get_or_init_creates m (expect (create_mutex m true)) w w' h (ground arith))
