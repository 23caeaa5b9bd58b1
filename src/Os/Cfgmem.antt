-- ===== src/Os/Cfgmem.antt =====
-- src/os/cfgmem.rs: the entries of the configuration memory by their addresses and widths, and the
-- volatile read of one. A byte of memory is a function of its address.
use ctru_rt.Base.{ℕ, zero, suc, ◌+◌, ◌*◌, ◌^◌, ◌≤◌, arith, List, [], ◌∷◌}

-- The width is that of the type, in bytes.
pub record CfgMemPointer : Type 0 where
  pub addr : ℕ
  pub width : ℕ

-- `n` bytes from an address on, the low one first.
unfoldable pub read_bytes : (ℕ → ℕ) → ℕ → ℕ → ℕ
read_bytes memory addr zero = 0
read_bytes memory addr (suc n) = memory addr + 2 ^ 8 * read_bytes memory (addr + 1) n

unfoldable pub read : (ℕ → ℕ) → CfgMemPointer → ℕ
unfolding read_bytes
read memory p = read_bytes memory p.addr p.width

abbrev entry : ℕ → ℕ → CfgMemPointer
entry addr width = record { addr = addr; width = width }

-- In the order of the source.
unfoldable pub entries : List CfgMemPointer
entries =
    entry 0x1FF80001 1
    ∷ entry 0x1FF80002 1
    ∷ entry 0x1FF80003 1
    ∷ entry 0x1FF80004 4
    ∷ entry 0x1FF80008 8
    ∷ entry 0x1FF80010 4
    ∷ entry 0x1FF80014 1
    ∷ entry 0x1FF80015 1
    ∷ entry 0x1FF80016 1
    ∷ entry 0x1FF80018 4
    ∷ entry 0x1FF80030 4
    ∷ entry 0x1FF80040 4
    ∷ entry 0x1FF80044 4
    ∷ entry 0x1FF80048 4
    ∷ entry 0x1FF80061 1
    ∷ entry 0x1FF80062 1
    ∷ entry 0x1FF80063 1
    ∷ entry 0x1FF80064 4
    ∷ entry 0x1FF80068 4
    ∷ []

-- Each entry ends before the next one starts.
abbrev pub Apart : List CfgMemPointer → Type 0
Apart [] = Unit
Apart (p ∷ []) = Unit
Apart (p ∷ q ∷ ps) = (p.addr + p.width ≤ q.addr) × Apart (q ∷ ps)

-- No two entries share a byte.
pub entries-Apart : Apart entries
unfolding entries
entries-Apart = ground arith
