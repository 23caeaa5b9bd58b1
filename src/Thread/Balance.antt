-- ===== src/Thread/Balance.antt =====
-- What spawning a thread and joining it take of the allocator and give back.
use ctru_rt.Base.{ℕ, ◌-◌, ◌≡◌, ◌≢◌, ◌⊎◌, ok}
use ctru_rt.Alloc.{Allocator, Counts}
use ctru_rt.Machine.{Machine}
use ctru_rt.Svc.Waiting.{wait_synchronization}
use ctru_rt.Svc.Timeout
use ctru_rt.Thread.{JoinHandle, join}

module _ {W S T : Type 0} (m : Machine W) (a : Allocator S) (read : ℕ → S → T) (live : S → ℕ)
    (counts : Counts a live) where
  -- Joining gives back that many bytes where the wait succeeds, and otherwise nothing.
  abbrev pub JoinGives : ℕ → JoinHandle → W × S → Type 0
  JoinGives size h (w, s) =
      ((wait_synchronization m h.handle Timeout.forever w).0 ≡ ok tt)
        × (live (join m a read h (w, s)).1.1 ≡ live s - size)
      ⊎ ((wait_synchronization m h.handle Timeout.forever w).0 ≢ ok tt)
        × (live (join m a read h (w, s)).1.1 ≡ live s)
