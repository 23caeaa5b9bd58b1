-- ===== src/Env.antt =====
-- src/env.rs: the arguments that the loader left in memory. An address is a number, and the memory
-- a function from addresses to bytes.
pub mod Laws
use ctru_rt.Base.{
  ℕ, zero, suc, ◌+◌, ◌-◌, ◌==◌, not, Bool, if◌then◌else◌, List, [], ◌∷◌, Option, none, some,
  from_le_bytes,
}

abbrev pub Memory : Type 0
Memory = ℕ → ℕ

-- The words that the loader has filled in.
pub record LoaderWords : Type 0 where
  pub apt_appid : ℕ
  pub heap_size_word : ℕ
  pub service_ptr : ℕ
  pub system_runflags : ℕ

unfoldable pub app_id : LoaderWords → ℕ
app_id words = words.apt_appid

unfoldable pub system_runflags : LoaderWords → ℕ
system_runflags words = words.system_runflags

unfoldable pub heap_size : LoaderWords → ℕ
heap_size words = words.heap_size_word

unfoldable pub is_homebrew : ℕ → Bool
is_homebrew service_ptr = not (service_ptr == 0)

pub record SystemArgList : Type 0 where
  pub length : ℕ
  pub arguments : ℕ

-- The loop over `i`: the first zero byte from `arguments` on; `none` where the fuel is out.
unfoldable pub find_end : ℕ → Memory → ℕ → ℕ → Option ℕ
find_end zero memory arguments i = none
find_end (suc fuel) memory arguments i =
    let later = find_end fuel memory arguments (i + 1) in
    if memory (arguments + i) == 0 then some i else later

-- A slice is its address and its length.
pub record Slice : Type 0 where
  pub start : ℕ
  pub len : ℕ

-- `next`; the outer `none` where the fuel is out.
unfoldable pub next : ℕ → Memory → SystemArgList → Option (Option Slice × SystemArgList)
unfolding find_end
next fuel memory l =
    if l.length == 0 then some (none, l) else elim (find_end fuel memory l.arguments 0) [
      | none ↦ none
      | some i ↦ some (
        some (record { start = l.arguments + (i + 1); len = i }),
        record { length = l.length - 1; arguments = l.arguments + (i + 1) },
      )
    ]

unfoldable pub size_hint : SystemArgList → ℕ × Option ℕ
size_hint l = (l.length, some l.length)

-- The word at the address is the number of the arguments, which stand behind it.
unfoldable pub system_arglist : Memory → ℕ → SystemArgList
system_arglist memory address = record {
  length =
      from_le_bytes (memory address) (memory (address + 1)) (memory (address + 2))
        (memory (address + 3));
  arguments = address + 4;
}

-- The slices that a `for` loop sees; `rounds` bounds the loop.
unfoldable pub collect : ℕ → ℕ → Memory → SystemArgList → Option (List Slice)
unfolding next
collect zero fuel memory l = none
collect (suc rounds) fuel memory l = elim (next fuel memory l) [
  | none ↦ none
  | some (none, l') ↦ some []
  | some (some slice, l') ↦ elim (collect rounds fuel memory l') [
    | none ↦ none
    | some slices ↦ some (slice ∷ slices)
  ]
]
