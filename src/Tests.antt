-- ===== src/Tests.antt =====
-- Tests: the theorems at concrete inputs, over a small kernel.
use ctru_rt.Srv.{Srv, blocking}
use ctru_rt.Alloc.{Layout, Allocator, Counts}
use ctru_rt.Base.{◌+◌, ◌-◌, ℕ, refl, arith, List, [], ◌∷◌, ◌==◌, if◌then◌else◌}
use ctru_rt.Machine.{Machine, Register, unused, word}
pub mod Wire
pub mod Kernel
pub mod Mapping
pub mod Registry
pub mod Screens
pub mod Sync
pub mod Threads
pub mod Tokens
pub mod Macros
pub mod Services

-- The registers after a call: success, and 5 as the first result.
abbrev pub answers : ℕ → ℕ
answers i = if i == 1 then 5 else 0

-- The address of a query.
abbrev pub queried : List Register → ℕ
queried (unused ∷ unused ∷ word address ∷ rest) = address
queried _ = 0

-- The region that is reported: free, from the address on.
abbrev pub free_region : ℕ → ℕ → ℕ
free_region address i = if i == 1 then address else if i == 2 then 0x400_0000 else 0

-- What a call leaves in memory: a limit of 64 MiB, of which nothing is in use.
abbrev pub reported : ℕ → List ℕ → List ℕ
reported n w = if n == 0x39 then 0x400_0000 ∷ 0 ∷ [] else if n == 0x3a then 0 ∷ 0 ∷ [] else w

-- Every call succeeds; the state is the command buffer.
abbrev pub kernel : Machine (List ℕ)
kernel = record {
  svc = λ (n : ℕ) (arguments : List Register) (w : List ℕ).
      (if n == 0x02 then free_region (queried arguments) else answers, reported n w);
  read_pointer = λ (w : List ℕ). w;
  command_buffer = λ (w : List ℕ). w;
  store_command_buffer = λ (buffer w : List ℕ). buffer;
}

abbrev pub client : Srv
client = record { handle = 5; blocking_policy = blocking }

-- A port that answers every request with the handle 7.
abbrev port_reply : List ℕ
port_reply = 0x5_0042 ∷ 0 ∷ 16 ∷ 7 ∷ []

abbrev pub port : Machine (List ℕ)
port = record {
  svc = λ (n : ℕ) (arguments : List Register) (w : List ℕ). (answers, w);
  read_pointer = λ (w : List ℕ). w;
  command_buffer = λ (w : List ℕ). port_reply;
  store_command_buffer = λ (buffer w : List ℕ). w;
}

-- A kernel that refuses every call.
abbrev pub refusing : Machine (List ℕ)
refusing = record {
  svc = λ (n : ℕ) (arguments : List Register) (w : List ℕ). ((λ _. 9), w);
  read_pointer = λ (w : List ℕ). w;
  command_buffer = λ (w : List ℕ). w;
  store_command_buffer = λ (buffer w : List ℕ). buffer;
}

-- An allocator that never has to look for a place; its state is what is in use.
abbrev pub bump : Allocator ℕ
bump = record {
  alloc = λ (l : Layout) (used : ℕ). (0x8000 + used, used + l.size);
  dealloc = λ (address : ℕ) (l : Layout) (used : ℕ). used - l.size;
}

-- What has been allocated and not freed.
pub bump-Counts : Counts bump (λ used. used)
bump-Counts = record {
  given = λ l s nz. refl;
  refused = λ l s z. absurd (omega (arith, z));
  returned = λ p l s. refl;
}
