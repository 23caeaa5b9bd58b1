-- ===== src/IpcCall/Laws.antt =====
-- What the macro emits for a call, against the headers of src/ipc/mod.rs.
use ctru_rt.Base.{ℕ, suc, List, [], ◌∷◌}
use ctru_rt.Ipc.Header
use ctru_rt.IpcCall.{IpcCall, Statement, offset_write}

-- The writes of some words from an offset on.
abbrev pub writes_from : ℕ → List ℕ → List Statement
writes_from i [] = []
writes_from i (p ∷ ps) = offset_write i p ∷ writes_from (suc i) ps
