-- ===== src/Tests/Registry.antt =====
-- A service manager with one service, and the client over it.
use ctru_rt.Base.{
  ℕ, ◌<◌, ◌≡◌, refl, sym, ap, ◌∙◌, ◌⊎◌, arith, List, [], ◌∷◌, ◌++◌, length-append, length-take,
  length-replicate, take, replicate, get_or, true, false, ◌==◌, if◌then◌else◌, ok, err, Option,
  none, some,
}
use ctru_rt.Machine.{Machine, Register}
use ctru_rt.Ipc.Writer.{command_buffer_length}
use ctru_rt.Srv.{get_service_handle, get_service_handle_alternatives, is_service_registered}
use ctru_rt.Srv.Laws.{get_or-take}
use ctru_rt.Srv.Registry.{name_of, HandleReply, flag, Server}
use ctru_rt.Srv.Refines.{client_refines}
use ctru_rt.Tests.{client}

-- The only service, whose name begins with a small a.
abbrev table : List ℕ → Option ℕ
table name = if get_or name 0 0 == 97 then some 7 else none

abbrev unknown : ℕ
unknown = 404

abbrev handle_reply : Option ℕ → List ℕ
handle_reply none = 0 ∷ unknown ∷ []
handle_reply (some handle) = 0 ∷ 0 ∷ 16 ∷ handle ∷ []

abbrev asked_name : List ℕ → List ℕ
asked_name buf = name_of (get_or buf 1 0) (get_or buf 2 0) (get_or buf 3 0)

abbrev reply : List ℕ → List ℕ
reply buf =
    if get_or buf 0 0 == 0x5_0100
    then handle_reply (table (asked_name buf))
    else 0 ∷ 0 ∷ flag (table (asked_name buf)) ∷ []

abbrev shown : List ℕ → List ℕ
shown w = take command_buffer_length (w ++ replicate command_buffer_length 0)

-- The state is what was last written to the command buffer.
abbrev manager : Machine (List ℕ)
manager = record {
  svc = λ (n : ℕ) (inputs : List Register) (w : List ℕ). ((λ _. 0), reply w);
  read_pointer = λ (w : List ℕ). [];
  command_buffer = shown;
  store_command_buffer = λ (buffer w : List ℕ). buffer;
}

-- A word of a message from the beginning of it.
beginning :
    (n i : ℕ) (msg start : List ℕ) → i < n → take n msg ≡ start → get_or msg i 0 ≡ get_or start i 0
beginning n i msg start h e = sym (get_or-take n i msg h) ∙ ap (λ (s : List ℕ). get_or s i 0) e

handle_replied :
    (arg0 arg1 len flags : ℕ) (msg : List ℕ)
    → take 5 msg ≡ 0x5_0100 ∷ arg0 ∷ arg1 ∷ len ∷ flags ∷ []
    → reply msg ≡ handle_reply (table (name_of arg0 arg1 len))
handle_replied arg0 arg1 len flags msg start =
    let word_at : (i : ℕ)
        → i < 5
        → get_or msg i 0 ≡ get_or (0x5_0100 ∷ arg0 ∷ arg1 ∷ len ∷ flags ∷ []) i 0 =
      λ i h. beginning 5 i msg _ h start in
    rw
      (
        word_at 0 (omega arith),
        word_at 1 (omega arith),
        word_at 2 (omega arith),
        word_at 3 (omega arith),
      )
      refl

flag_replied :
    (arg0 arg1 len : ℕ) (msg : List ℕ)
    → take 4 msg ≡ 0xe_00c0 ∷ arg0 ∷ arg1 ∷ len ∷ []
    → reply msg ≡ 0 ∷ 0 ∷ flag (table (name_of arg0 arg1 len)) ∷ []
flag_replied arg0 arg1 len msg start =
    let word_at : (i : ℕ)
        → i < 4
        → get_or msg i 0 ≡ get_or (0xe_00c0 ∷ arg0 ∷ arg1 ∷ len ∷ []) i 0 =
      λ i h. beginning 4 i msg _ h start in
    rw
      (
        word_at 0 (omega arith),
        word_at 1 (omega arith),
        word_at 2 (omega arith),
        word_at 3 (omega arith),
      )
      refl

handle_shown :
    (o : Option ℕ) → (o ≡ none) ⊎ (o ≡ some 7) → HandleReply unknown o (shown (handle_reply o))
handle_shown none h = refl
handle_shown (some handle) h = (refl, omega arith, refl, ground arith)

server : Server manager (λ _. table) unknown
server = record {
  whole_buffer = λ w. omega (
    arith,
    length-take command_buffer_length (w ++ replicate command_buffer_length 0),
    length-append w (replicate command_buffer_length 0),
    length-replicate {A = ℕ} command_buffer_length 0,
  );
  failure = λ p. ground arith;
  gives_handle = λ client arg0 arg1 len flags msg w start. (
    refl,
    refl,
    rw (handle_replied arg0 arg1 len flags msg start)
        (handle_shown (table (name_of arg0 arg1 len)) (ground arith)),
  );
  tells_registered = λ client arg0 arg1 len msg w start. (
    refl,
    refl,
    rw (flag_replied arg0 arg1 len msg start) refl,
    rw (flag_replied arg0 arg1 len msg start) refl,
  );
}

abbrev names : List (List ℕ)
names = (98 ∷ []) ∷ (97 ∷ 98 ∷ []) ∷ []

client_refines_example :
    ((get_service_handle manager true client (98 ∷ []) []).0 ≡ err unknown)
    × ((get_service_handle_alternatives manager true client names []).0 ≡ ok (7, 1))
    × ((is_service_registered manager true client (98 ∷ []) []).0 ≡ ok false)
    × (table ≡ table)
    × (table ≡ table)
    × (table ≡ table)
client_refines_example =
    client_refines manager true (λ _. table) unknown server client (98 ∷ []) names [] (ground arith)
      (ground arith)
