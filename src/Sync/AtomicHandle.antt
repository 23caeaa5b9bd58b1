-- ===== src/Sync/AtomicHandle.antt =====
-- `AtomicHandle` of src/sync.rs: a cell with a raw handle, 0 while it is closed.
use ctru_rt.Base.{ℕ, ◌==◌, if◌then◌else◌, ok, Result, okay, fail, ◌≡◌, ◌≢◌, arith}
use ctru_rt.Machine.{Machine, Sys, ◌>>=◌, ◌>>◌, pure, outside, get, ignore}
use ctru_rt.Os.Handle.{closed_handle}
use ctru_rt.Svc.Calls.{close_handle}

-- `AtomicU32::compare_exchange`: both results carry the value that was there before.
unfoldable pub compare_exchange : ℕ → ℕ → ℕ → Result ℕ ℕ × ℕ
compare_exchange cell current new = if cell == current then (okay cell, new) else (fail cell, cell)

unfoldable pub from_handle : ℕ → ℕ
from_handle handle = handle

unfoldable pub new_closed : ℕ
new_closed = closed_handle

-- `Default`, and the load of `as_handle`.
unfoldable pub default : ℕ
unfolding new_closed
default = new_closed

unfoldable pub as_handle : ℕ → ℕ
as_handle cell = cell

module _ {W : Type 0} (m : Machine W) where
  -- The match on the compare-exchange of `new_handle` into the closed cell.
  unfoldable pub install : ℕ → Sys (W × ℕ) ℕ
  install new_handle (w, cell) =
      let (result, cell') = compare_exchange cell closed_handle new_handle in
      elim result [
        | okay new_handle ↦ (ok new_handle, (w, cell'))
        | fail old_handle ↦ (ok old_handle, ((ignore (close_handle m new_handle) w).1, cell'))
      ]

  -- `get_or_init`; `others` is what other threads do between the load and the compare-exchange.
  unfoldable pub get_or_init : Sys W ℕ → (W × ℕ → W × ℕ) → Sys (W × ℕ) ℕ
  get_or_init init others = do
    current ← get
    if current == closed_handle
        then (outside init >>= λ new_handle. (λ s. (ok tt, others s)) >> install new_handle)
        else pure current

  -- `Drop`: the handle that is closed is 0 too where the cell was never filled.
  unfoldable pub drop : Sys (W × ℕ) (Unit {0})
  drop (w, cell) = ignore (outside (close_handle m cell)) (w, closed_handle)

-- With nobody in between, and where `init` gives a handle, the call that creates the handle stores
-- it in the cell and returns 0, the value that was there before.
pub get_or_init_creates :
    {W : Type 0} (m : Machine W) (init : Sys W ℕ) (w w' : W) (h : ℕ)
    → init w ≡ (ok h, w')
    → get_or_init m init (λ s. s) (w, closed_handle) ≡ (ok closed_handle, (w', h))
unfolding get_or_init install compare_exchange
get_or_init_creates m init w w' h e = ground arith

-- Where `init` gives a handle and other threads have filled the cell in between, the new handle is
-- closed and theirs is returned; a cell that was filled before is returned with no call at all.
pub get_or_init_shares :
    {W : Type 0} (m : Machine W) (init : Sys W ℕ) (others : W × ℕ → W × ℕ) (w w' v : W) (h x : ℕ)
    → x ≢ 0
    → init w ≡ (ok h, w')
    → others (w', closed_handle) ≡ (v, x)
    → (get_or_init m init others (w, closed_handle) ≡ (ok x, ((ignore (close_handle m h) v).1, x)))
      × (get_or_init m init others (w, x) ≡ (ok x, (w, x)))
unfolding get_or_init install compare_exchange
get_or_init_shares m init others w w' v h x nz e o = (ground arith, ground arith)
