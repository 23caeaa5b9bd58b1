-- ===== src/Sync/Event.antt =====
-- `Event` of src/sync.rs, the raw handle that it owns.
use ctru_rt.Base.{ℕ, List}
use ctru_rt.Machine.{Machine, Sys}
use ctru_rt.Svc.Calls.{create_event, clear_event, signal_event, duplicate_handle}
use ctru_rt.Svc.Waiting.{wait_synchronization, wait_synchronization_all, wait_synchronization_any}

pub data ResetType : Type 0 where
  one_shot sticky pulse : ResetType

unfoldable pub reset_type_number : ResetType → ℕ
reset_type_number one_shot = 0
reset_type_number sticky = 1
reset_type_number pulse = 2

module _ {W : Type 0} (m : Machine W) where
  unfoldable pub new : ResetType → Sys W ℕ
  new reset_type = create_event m (reset_type_number reset_type)

  unfoldable pub wait : ℕ → ℕ → Sys W (Unit {0})
  wait event timeout = wait_synchronization m event timeout

  unfoldable pub clear : ℕ → Sys W (Unit {0})
  clear event = clear_event m event

  unfoldable pub signal : ℕ → Sys W (Unit {0})
  signal event = signal_event m event

  -- The slice of events is a slice of handles.
  unfoldable pub wait_all : List ℕ → ℕ → Sys W (Unit {0})
  wait_all events timeout = wait_synchronization_all m events timeout

  unfoldable pub wait_any : List ℕ → ℕ → Sys W ℕ
  wait_any events timeout = wait_synchronization_any m events timeout

  unfoldable pub duplicate : ℕ → Sys W ℕ
  duplicate event = duplicate_handle m event

-- `from_handle`, and `as_handle`: the event is its handle.
unfoldable pub from_handle : ℕ → ℕ
from_handle handle = handle

unfoldable pub as_handle : ℕ → ℕ
as_handle event = event
