-- ===== src/Tests/Sync.antt =====
-- The mutex and the threads that share a handle or an event.
use ctru_rt.Base.{ℕ, ◌≡◌, ◌≢◌, ◌⊎◌, refl, arith, Bool, ok, []}
use ctru_rt.Machine.{expect, outside}
use ctru_rt.Codes.ResultCode
use ctru_rt.Svc.Calls.{create_mutex, svc_handle, svc_registers, handle_from_register}
use ctru_rt.Svc.Timeout
use ctru_rt.Svc.Waiting.{wait_synchronization}
use ctru_rt.Os.Handle.{closed_handle}
use ctru_rt.Sync.AtomicHandle.{compare_exchange}
use ctru_rt.Sync.Mutex.{lock, lock_first}
use ctru_rt.Sync.StickyEvent.{cleared}
use ctru_rt.Sync.StickyThreads
use ctru_rt.Sync.StickyThreads.{RwLock, read_guard, write_guard, guard_of, wait-never_returns}
use ctru_rt.Sync.Threads
use ctru_rt.Sync.Threads.{Pc, Reach, Step, Move, threads_agree}
use ctru_rt.Tests.{kernel}

mutex_created : create_mutex kernel Bool.true [] ≡ (ok 5, [])
unfolding create_mutex svc_handle svc_registers handle_from_register ResultCode.and
mutex_created = refl

lock_first_example :
    lock kernel (λ s. s) ([], closed_handle)
    ≡ expect (outside (wait_synchronization kernel closed_handle Timeout.forever)) ([], 5)
lock_first_example = lock_first kernel [] [] 5 mutex_created

abbrev creator_done : ℕ → Pc
creator_done =
    Threads.update
      (Threads.update (Threads.update (λ _. Threads.idle) 0 Threads.creating) 0 (Threads.holding 5))
      0 (Threads.done 0)

-- Thread 0 creates the handle and thread 1 finds it.
two_threads : Reach (record { cell = 5; pc = Threads.update creator_done 1 (Threads.done 5) })
unfolding compare_exchange
two_threads =
    Reach.later
      (Reach.later
        (Reach.later (Reach.later Reach.start (Step.pick 0 (Move.load_closed refl)))
          (Step.pick 0 (Move.create (omega arith))))
        (Step.pick 0 (Move.win refl)))
      (Step.pick 1 (Move.load_open (omega arith)))

abbrev handle : ℕ
handle = 5

abbrev closed : ℕ
closed = 0

threads_agree_example :
    (handle ≢ 0) × ((closed ≡ 0) ⊎ (closed ≡ handle)) × ((closed ≡ handle) ⊎ (handle ≡ handle))
threads_agree_example = threads_agree two_threads 0 1 0 5 (omega arith) refl refl

-- A lock that gives out every guard that the others allow.
abbrev open_lock : RwLock
open_lock = record {
  may_read = λ g. (i : ℕ) → g i ≢ write_guard;
  may_read_upgradeable = λ g. (i : ℕ) → g i ≢ write_guard;
  may_upgrade = λ g i. (j : ℕ) → g j ≢ read_guard;
  read_alone = λ g h. h;
  upgrade_alone = λ g i h. h;
}

abbrev start : StickyThreads.System
start = record { state = cleared; pc = λ _. StickyThreads.idle }

abbrev one_asleep : StickyThreads.System
one_asleep = record {
  state = cleared;
  pc =
      StickyThreads.update (StickyThreads.update start.pc 0 StickyThreads.wait_checks) 0
        StickyThreads.waiting;
}

abbrev signaller : StickyThreads.System
signaller = record {
  state = cleared;
  pc = StickyThreads.update one_asleep.pc 1 StickyThreads.signal_checks;
}

-- Thread 0 waits, and thread 1 is in `signal`.
asleep : StickyThreads.Reach open_lock one_asleep
unfolding guard_of
asleep =
    StickyThreads.Reach.later
      (StickyThreads.Reach.later (StickyThreads.Reach.start cleared)
        (StickyThreads.Step.act 0 (StickyThreads.Move.wait_read (λ i. ground arith))))
      (StickyThreads.Step.act 0 (StickyThreads.Move.wait_sleeps refl))

signalling : StickyThreads.Run open_lock one_asleep signaller
unfolding guard_of
signalling =
    StickyThreads.Run.goes StickyThreads.Run.stays
      (StickyThreads.Step.act 1 (StickyThreads.Move.signal_read (λ i. ground arith)))

wait-never_returns_example : (signaller.pc 0 ≡ StickyThreads.waiting) × (signaller.state ≡ cleared)
wait-never_returns_example = wait-never_returns open_lock asleep 0 refl signalling
