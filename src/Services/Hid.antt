-- ===== src/Services/Hid.antt =====
-- src/services/hid/mod.rs: the input service, and the block of memory that it shares. The state
-- beside the outside world is the mapper's; the words of the block are a function of their index.
use ctru_rt.Base.{
  bit_and-mask, ℕ, ◌+◌, ◌*◌, ◌^◌, ◌<◌, ◌≤◌, ◌≡◌, arith, bit_and, ◌<<◌, ◌==◌, not, ltb, ◌&&◌,
  if◌then◌else◌, Bool, List, [], ◌∷◌, Outcome, ok, err, panic,
}
use ctru_rt.Machine.{
  Machine, Sys, ◌>>=◌, ◌>>◌, pure, lift, ignore, or_else, on_error, outside, panics,
}
use ctru_rt.Os.Handle
use ctru_rt.Os.Mem
use ctru_rt.Os.Mem.{MemoryPermission}
use ctru_rt.Os.Sharedmem.{MappedBlock, map, unmap}
use ctru_rt.Ipc.Reply.{CommandBufferReader}
use ctru_rt.Ipc.Client.{ask, no_reply}
use ctru_rt.Ipc.Request.{command}
use ctru_rt.Ipc.Translate.{decode_owned_handles}
use ctru_rt.Srv.{Srv, get_service_handle}

-- The size of the block in bytes.
abbrev pub size : ℕ
size = 0x2b0

pub record Hid : Type 0 where
  pub service_handle : ℕ
  pub sharedmem : MappedBlock
  pub pads : ℕ × ℕ
  pub accelerometer : ℕ
  pub gyroscope : ℕ
  pub debugpad : ℕ

-- The reads; a u64 is two words, the low one first.
unfoldable pub current_update : (ℕ → ℕ) → ℕ
current_update memory = memory 0 + memory 1 * 2 ^ 32

unfoldable pub last_update : (ℕ → ℕ) → ℕ
last_update memory = memory 2 + memory 3 * 2 ^ 32

unfoldable pub current_index : (ℕ → ℕ) → ℕ
current_index memory = bit_and (memory 4) 0b111

unfoldable pub current_pad_state : (ℕ → ℕ) → ℕ
current_pad_state memory = memory 5

-- The word at which the entry starts; `debug` tells whether `debug_assert!` is compiled in.
unfoldable pub pad_state : Bool → ℕ → Outcome ℕ
pad_state debug index = if debug && not (ltb index 8) then panic else ok (10 + index * 4)

-- The word of the entry at an offset.
abbrev pad_word : Bool → (ℕ → ℕ) → ℕ → ℕ → Outcome ℕ
pad_word debug memory offset index = elim (pad_state debug index) [
  | ok at ↦ ok (memory (at + offset))
  | err e ↦ err e
  | panic ↦ panic
]

unfoldable pub pad_current : Bool → (ℕ → ℕ) → ℕ → Outcome ℕ
pad_current debug memory index = pad_word debug memory 0 index

unfoldable pub pad_pressed : Bool → (ℕ → ℕ) → ℕ → Outcome ℕ
pad_pressed debug memory index = pad_word debug memory 1 index

unfoldable pub pad_released : Bool → (ℕ → ℕ) → ℕ → Outcome ℕ
pad_released debug memory index = pad_word debug memory 2 index

-- `KeyPad` is its bits.
unfoldable pub last_keypad : Bool → (ℕ → ℕ) → Outcome ℕ
last_keypad debug memory = pad_current debug memory (current_index memory)

pub data Key : Type 0 where
  a b select start right left up down r l x y cpad_right cpad_left cpad_up cpad_down : Key

unfoldable pub key_index : Key → ℕ
key_index a = 0
key_index b = 1
key_index select = 2
key_index start = 3
key_index right = 4
key_index left = 5
key_index up = 6
key_index down = 7
key_index r = 8
key_index l = 9
key_index x = 10
key_index y = 11
key_index cpad_right = 28
key_index cpad_left = 29
key_index cpad_up = 30
key_index cpad_down = 31

unfoldable pub pressed : ℕ → Key → Bool
unfolding key_index
pressed bits key = not (bit_and bits (1 << key_index key) == 0)

abbrev pub keys : List Key
keys =
    a ∷ b ∷ select ∷ start ∷ right ∷ left ∷ up ∷ down ∷ r ∷ l ∷ x ∷ y ∷ cpad_right ∷ cpad_left
    ∷ cpad_up ∷ cpad_down ∷ []

-- The entries of the set that `Debug` prints.
unfoldable pub debug_entries : ℕ → List Key → List Key
debug_entries bits [] = []
debug_entries bits (key ∷ rest) =
    let entries = debug_entries bits rest in if pressed bits key then key ∷ entries else entries

-- Whatever the words of the block are, the entry that its index names is read with no panic; the
-- three words of the entry lie behind the clocks and the index, and inside the size of the block.
pub last_keypad_lem :
    (debug : Bool) (memory : ℕ → ℕ)
    → (at : ℕ) × (pad_state debug (current_index memory) ≡ ok at)
      × (last_keypad debug memory ≡ ok (memory at))
      × (5 < at)
      × (4 * (at + 3) ≤ size)
unfolding last_keypad pad_current pad_state current_index
last_keypad_lem debug memory =
    let inside = bit_and-mask 3 (memory 4) in
    (
      10 + bit_and (memory 4) 7 * 4,
      ground (arith, inside),
      ground (arith, inside),
      omega (arith, inside),
      omega (arith, inside),
    )

module _ {W : Type 0} (m : Machine W) (debug : Bool) where
  -- `SharedMemory::new`
  unfoldable pub map_shared_memory : ℕ → Sys (W × ℕ) MappedBlock
  map_shared_memory memory_handle =
      map m memory_handle size (Mem.permission_number MemoryPermission.r)
        (Mem.permission_number MemoryPermission.dont_care)

  -- Its `Drop`: the handle that `unmap` returns is dropped, and an error is not reported.
  unfoldable pub drop_shared_memory : MappedBlock → Sys (W × ℕ) (Unit {0})
  drop_shared_memory sharedmem =
      ignore (unmap m sharedmem >>= λ (memory_handle : ℕ). outside (Handle.drop m memory_handle))

  -- The handles of a list in its order.
  unfoldable pub drop_handles : List ℕ → Sys W (Unit {0})
  drop_handles [] = pure tt
  drop_handles (handle ∷ handles) = Handle.drop m handle >> drop_handles handles

  -- "hid:USER", else "hid:SPVR"
  unfoldable pub service : Srv → Sys W ℕ
  service srv =
      or_else (get_service_handle m debug srv (104 ∷ 105 ∷ 100 ∷ 58 ∷ 85 ∷ 83 ∷ 69 ∷ 82 ∷ []))
        (get_service_handle m debug srv (104 ∷ 105 ∷ 100 ∷ 58 ∷ 83 ∷ 80 ∷ 86 ∷ 82 ∷ []))

  -- The rest of `init` behind the reply; the handles that were not mapped are dropped on an error,
  -- the last first.
  unfoldable pub finish_init : ℕ → List ℕ → Sys (W × ℕ) Hid
  finish_init service_handle
        (memory_handle ∷ pad0 ∷ pad1 ∷ accelerometer ∷ gyroscope ∷ debugpad ∷ []) =
      on_error
        (outside
          (drop_handles (debugpad ∷ gyroscope ∷ accelerometer ∷ pad1 ∷ pad0 ∷ service_handle ∷ [])))
        (map_shared_memory memory_handle)
      >>= λ (sharedmem : MappedBlock). pure (record {
        service_handle = service_handle;
        sharedmem = sharedmem;
        pads = (pad0, pad1);
        accelerometer = accelerometer;
        gyroscope = gyroscope;
        debugpad = debugpad;
      })
  finish_init service_handle handles = panics

  unfoldable pub init : Srv → Sys (W × ℕ) Hid
  init srv = outside (service srv) >>= λ (service_handle : ℕ).
      outside (
        on_error (Handle.drop m service_handle)
          (ask m service_handle (λ buf. ok (command buf 0xa))))
      >>= λ (reply : CommandBufferReader).
          lift (decode_owned_handles debug 6 reply) >>= λ (p : List ℕ × CommandBufferReader).
          finish_init service_handle p.0

  unfoldable pub enable_accelerometer : Hid → Sys W (Unit {0})
  enable_accelerometer hid = ask m hid.service_handle (λ buf. ok (command buf 0xa)) >>= no_reply

  -- What the destructors of the fields do.
  unfoldable pub drop : Hid → Sys (W × ℕ) (Unit {0})
  drop hid =
      outside (Handle.drop m hid.service_handle)
      >> drop_shared_memory hid.sharedmem
      >> outside (
          drop_handles
            (hid.pads.0 ∷ hid.pads.1 ∷ hid.accelerometer ∷ hid.gyroscope ∷ hid.debugpad ∷ []))
