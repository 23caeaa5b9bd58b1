-- ===== src/Debug/Log.antt =====
-- The logger of src/debug.rs. What `core::fmt` makes of the template of a line is a parameter, and
-- so are the two calls of the `log` crate.
use ctru_rt.Base.{ℕ, leb, Bool, if◌then◌else◌, List, [], ◌∷◌, Result, okay, fail}
use ctru_rt.Machine.{Machine, Sys, pure}
use ctru_rt.Svc.Calls.{output_debug_bytes}

pub data Level : Type 0 where
  error warn info debug trace : Level

-- The order of the `log` crate, from the most severe on.
unfoldable pub level_number : Level → ℕ
level_number error = 1
level_number warn = 2
level_number info = 3
level_number debug = 4
level_number trace = 5

unfoldable pub color : Level → List ℕ
color trace = 48 ∷ []
color debug = 51 ∷ 55 ∷ []
color info = 51 ∷ 50 ∷ []
color warn = 51 ∷ 51 ∷ []
color error = 51 ∷ 49 ∷ []

unfoldable pub enabled : Level → Bool
unfolding level_number
enabled level = leb (level_number level) (level_number trace)

pub record LogRecord : Type 0 where
  pub level : Level
  pub module_path : List ℕ
  pub args : List ℕ

unfoldable pub log :
    {W : Type 0}
    → Machine W
    → (List ℕ → Level → List ℕ → List ℕ → List ℕ)
    → LogRecord
    → Sys W (Unit {0})
unfolding color enabled
log m format r =
    if enabled r.level
    then output_debug_bytes m (format (color r.level) r.level r.module_path r.args)
    else pure tt

-- The filter with debug assertions and without.
unfoldable pub filter : Bool → Level
filter debug_assertions = if debug_assertions then debug else info

-- The logger is set once; the maximal level is set where this succeeds.
unfoldable pub init_log :
    {S E : Type 0}
    → (S → Result (Unit {0}) E × S)
    → (Level → S → S)
    → Bool
    → S
    → Result (Unit {0}) E × S
unfolding filter
init_log set_logger set_max_level debug_assertions s =
    let (r, s') = set_logger s in
    elim r [
      | okay _ ↦ (okay tt, set_max_level (filter debug_assertions) s')
      | fail e ↦ (fail e, s')
    ]
