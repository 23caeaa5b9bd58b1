-- ===== src/Ipc/Marshal.antt =====
-- A request of normal and translate parameters as the words that the kernel is handed.
use ctru_rt.Base.{dec_lt, ℕ, zero, suc, ◌+◌, ◌≤◌, ◌<◌, ◌≡◌, refl, ◌∙◌, arith, set}
use ctru_rt.Base.{
  List, [], ◌∷◌, ◌++◌, append_assoc, length, take, length-take, Outcome, ok, panic, ◌>>=◌,
}
use ctru_rt.Ipc.Header
use ctru_rt.Ipc.Writer
use ctru_rt.Ipc.Writer.{CommandBufferWriter, command_buffer_length}
use ctru_rt.Ipc.WriterLaws.{set_all, length-set_all, take-set_all, write_all-ok, write_all-panic}
use ctru_rt.Ipc.Translate.{TranslateParameter}
use ctru_rt.Ipc.Request.{IpcRequest, translate, command, parameters, translate_parameter, message}

-- The encoder writes these words, whatever the writer.
abbrev pub Writes : TranslateParameter → List ℕ → Type 0
Writes encode words = (w : CommandBufferWriter) → encode w ≡ Writer.write_all words w

pub set-head :
    (buf ws : List ℕ) (n h : ℕ) (x : List ℕ)
    → 0 < n
    → take n buf ≡ x ++ ws
    → length x ≡ 1
    → take n (set buf 0 h) ≡ h ∷ ws
set-head buf ws zero h x p e l = absurd (omega arith)
set-head [] ws (suc n) h [] p e l = absurd (omega arith)
set-head [] ws (suc n) h (y ∷ x) p e l = cc
set-head (b ∷ buf) ws (suc n) h [] p e l = absurd (omega arith)
set-head (b ∷ buf) ws (suc n) h (y ∷ z ∷ x) p e l = absurd (omega arith)
set-head (b ∷ buf) ws (suc n) h (y ∷ []) p e l = cc

module _ (buf : List ℕ) (id : ℕ) (ps ts : List ℕ) (encode : TranslateParameter)
    (writes : Writes encode ts) where
  abbrev built : Outcome (IpcRequest translate)
  built = parameters ps (command buf id) >>= translate_parameter encode

  abbrev stored : List ℕ
  stored = set_all (set_all buf 1 ps) (1 + length ps) ts

  abbrev expected : IpcRequest translate
  expected = record {
    cmdbuf = record { buf = stored; end_ptr = 1 + length ps + length ts };
    param_words = length ps;
    translate_param_words = length ts;
    id = id;
  }

  built-ok : 1 + length ps + length ts ≤ command_buffer_length → built ≡ ok expected
  unfolding parameters command translate_parameter Writer.new Writer.advance
  built-ok h = ground (
    arith,
    write_all-ok ps buf 1,
    writes (record { buf = set_all buf 1 ps; end_ptr = 1 + length ps }),
    write_all-ok ts (set_all buf 1 ps) (1 + length ps),
  )

  message-expected :
      length buf ≡ command_buffer_length
      → 1 + length ps + length ts ≤ command_buffer_length
      → take (1 + length ps + length ts) (message expected)
        ≡ Header.new id (length ps) (length ts) ∷ (ps ++ ts)
  unfolding message Writer.finish
  message-expected l h =
      set-head stored (ps ++ ts) (1 + length ps + length ts) _ (take 1 buf) (omega arith)
        (take-set_all ts (set_all buf 1 ps) (1 + length ps) _ refl
            (omega (arith, length-set_all ps buf 1))
          ∙ rw (take-set_all ps buf 1 (1 + length ps) refl (omega arith), append_assoc))
        (omega (arith, length-take 1 buf))

  -- Where the words of a request fit the range of a whole command buffer, the request is built, and
  -- its message begins with the header of its command and of the two numbers of words, then the
  -- normal parameters and the translated words in their order.
  pub marshal :
      length buf ≡ command_buffer_length
      → 1 + length ps + length ts ≤ command_buffer_length
      → (r : IpcRequest translate) × (built ≡ ok r)
        × (take (1 + length ps + length ts) (message r)
            ≡ Header.new id (length ps) (length ts) ∷ (ps ++ ts))
  marshal l h = (expected, built-ok h, message-expected l h)

  -- A request whose words do not fit the range panics while it is built.
  pub marshal-panic : command_buffer_length < 1 + length ps + length ts → built ≡ panic
  unfolding parameters command translate_parameter Writer.new Writer.advance
  marshal-panic h = elim (dec_lt command_buffer_length (1 + length ps)) [
    | yes over ↦ ground (arith, write_all-panic ps buf 1)
    | no fits ↦ ground (
      arith,
      write_all-ok ps buf 1,
      writes (record { buf = set_all buf 1 ps; end_ptr = 1 + length ps }),
      write_all-panic ts (set_all buf 1 ps) (1 + length ps),
    )
  ]
