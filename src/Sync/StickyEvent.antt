-- ===== src/Sync/StickyEvent.antt =====
-- `AddressArbiter` and `spin::StickyEvent` of src/sync.rs. The state of the event is what its lock
-- guards. A call is one step here, as it is where no other thread uses the event; its steps among
-- those of other threads are in Sync/StickyThreads.
use ctru_rt.Base.{refl, Option, none, some, ℕ, ◌-◌, ◌^◌, ok, Result, okay, fail, ◌≡◌, ◌⊎◌, arith}
use ctru_rt.Machine.{Machine, Sys, ◌>>=◌, ◌>>◌, pure, expect, modify, outside, ignore}
use ctru_rt.Svc.Calls.{arbitrate_address, create_address_arbiter}
use ctru_rt.Sync.AtomicHandle
use ctru_rt.Svc.Timeout

pub data ArbitrationType : Type 0 where
  signal_type wait_if_less_than_type decrement_and_wait_if_less_than : ArbitrationType
  wait_if_less_than_timeout decrement_and_wait_if_less_than_timeout : ArbitrationType

unfoldable pub arbitration_number : ArbitrationType → ℕ
arbitration_number signal_type = 0
arbitration_number wait_if_less_than_type = 1
arbitration_number decrement_and_wait_if_less_than = 2
arbitration_number wait_if_less_than_timeout = 3
arbitration_number decrement_and_wait_if_less_than_timeout = 4

pub data State : Type 0 where
  cleared signaled : State

unfoldable pub state_number : State → ℕ
state_number cleared = 0
state_number signaled = 1

-- `Err(StickyEventClearedError)` is `fail tt`.
unfoldable pub try_wait : State → Result (Unit {0}) (Unit {0})
try_wait signaled = okay tt
try_wait cleared = fail tt

unfoldable pub clear_state : State → State
clear_state cleared = cleared
clear_state signaled = cleared

-- `StickyEvent::new`
unfoldable pub new : State
new = cleared

-- `AddressArbiter::new`, and the static that is made at its first use: a failure panics, and `some`
-- is an arbiter that was made before.
module _ {W : Type 0} (m : Machine W) where
  unfoldable pub new_arbiter : Sys W ℕ
  new_arbiter = create_address_arbiter m >>= λ arbiter. pure (AtomicHandle.from_handle arbiter)

  unfoldable pub lazy_arbiter : Sys (W × Option ℕ) ℕ
  unfolding new_arbiter
  lazy_arbiter (w, some arbiter) = (ok arbiter, (w, some arbiter))
  lazy_arbiter (w, none) = (expect (outside new_arbiter) >>= keep) (w, none)
    where
      keep : ℕ → Sys (W × Option ℕ) ℕ
      keep arbiter = modify (λ _. some arbiter) >> pure arbiter

  -- The first use makes the arbiter where the kernel does, and each later one takes the same,
  -- without a call.
  pub lazy_arbiter_lem :
      (w w' : W) (h : ℕ)
      → create_address_arbiter m w ≡ (ok h, w')
      → (lazy_arbiter (w, none) ≡ (ok h, (w', some h)))
        × ((v : W) → lazy_arbiter (v, some h) ≡ (ok h, (v, some h)))
  unfolding lazy_arbiter new_arbiter AtomicHandle.from_handle
  lazy_arbiter_lem w w' h e = (ground arith, λ v. refl)

module _ {W : Type 0} (m : Machine W) (arbiter address : ℕ) where
  unfoldable pub arbitrate : ArbitrationType → ℕ → ℕ → Sys W (Unit {0})
  arbitrate arbitration_type value timeout =
      arbitrate_address m arbiter address (arbitration_number arbitration_type) value timeout

  -- -1 as an i32 pattern: all waiters.
  unfoldable pub wake_up_all : ℕ → Sys W (Unit {0})
  wake_up_all timeout = arbitrate signal_type (2 ^ 32 - 1) timeout

  unfoldable pub wake_up : ℕ → ℕ → Sys W (Unit {0})
  wake_up num_waiters timeout = arbitrate signal_type num_waiters timeout

  unfoldable pub wait_if_less_than : ℕ → Sys W (Unit {0})
  wait_if_less_than value = arbitrate wait_if_less_than_type value Timeout.none

  unfoldable pub signal : Sys (W × State) (Unit {0})
  signal (w, signaled) = (ok tt, (w, signaled))
  signal (w, cleared) = outside (wake_up_all Timeout.forever) (w, signaled)

  unfoldable pub clear : Sys (W × State) (Unit {0})
  clear (w, state) = (ok tt, (w, clear_state state))

  unfoldable pub wait : Sys (W × State) (Unit {0})
  wait (w, signaled) = (ok tt, (w, signaled))
  wait (w, cleared) = ignore (outside (wait_if_less_than (state_number signaled))) (w, cleared)

  -- After `signal` the event is signaled, whatever the arbiter answers; the arbiter is called
  -- exactly where it was cleared, once, and its error is returned.
  pub signal_lem :
      (w : W) (s : State)
      → ((signal (w, s)).1.1 ≡ signaled)
        × (try_wait (signal (w, s)).1.1 ≡ okay tt)
        × ((s ≡ signaled) × (signal (w, s) ≡ (ok tt, (w, signaled)))
            ⊎ (s ≡ cleared)
              × ((signal (w, s)).0 ≡ (wake_up_all Timeout.forever w).0)
              × ((signal (w, s)).1.0 ≡ (wake_up_all Timeout.forever w).1))
  unfolding signal try_wait
  signal_lem w signaled = ground arith
  signal_lem w cleared = ground arith

  -- `clear` leaves the event cleared and `wait` leaves it as it is; `try_wait` tells the two states
  -- apart.
  pub clear-wait :
      (w : W) (s : State) → (try_wait (clear (w, s)).1.1 ≡ fail tt) × ((wait (w, s)).1.1 ≡ s)
  unfolding clear wait try_wait clear_state
  clear-wait w signaled = ground arith
  clear-wait w cleared = ground arith
