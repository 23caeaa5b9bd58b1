-- ===== src/Os/Handle.antt =====
-- `OwnedHandle` and `BorrowedHandle` of src/os/mod.rs, the raw handles that they wrap.
use ctru_rt.Base.{ℕ, Option}
use ctru_rt.Codes.ResultCode
use ctru_rt.Machine.{Machine, Sys, ignore}
use ctru_rt.Svc.Calls.{close_handle, duplicate_handle}

abbrev pub closed_handle : ℕ
closed_handle = 0

abbrev pub active_thread : ℕ
active_thread = 0xFFFF_8000

abbrev pub active_process : ℕ
active_process = 0xFFFF_8001

unfoldable pub new : ℕ → Option ℕ
new raw_handle = ResultCode.non_zero raw_handle

-- `OwnedHandle::handle`, `leak`, and `AsHandle`: a borrowed handle is the same raw handle.
unfoldable pub handle : ℕ → ℕ
handle owned = owned

unfoldable pub leak : ℕ → ℕ
leak owned = owned

unfoldable pub as_handle : ℕ → ℕ
unfolding handle
as_handle owned = handle owned

module _ {W : Type 0} (m : Machine W) where
  unfoldable pub close : ℕ → Sys W (Unit {0})
  close handle = close_handle m handle

  unfoldable pub try_duplicate : ℕ → Sys W ℕ
  try_duplicate handle = duplicate_handle m handle

  -- `Drop`
  unfoldable pub drop : ℕ → Sys W (Unit {0})
  drop handle = ignore (close handle)
