-- ===== src/Srv/Registry.antt =====
-- A service manager that keeps a registry of names, and what a client should get from it.
use ctru_rt.Base.{
  ℕ, ◌+◌, ◌^◌, ◌<◌, min, ◌≡◌, ◌≢◌, refl, ◌∙◌, arith, List, [], ◌∷◌, ◌++◌, length, take, get_or, All,
  Bool, true, false, Outcome, ok, err, Option, none, some,
}
use ctru_rt.Machine.{Machine, word}
use ctru_rt.Ipc.Writer.{command_buffer_length}
use ctru_rt.Srv.{write_str_param}
use ctru_rt.Srv.Laws.{word_bytes, write_str_param_lem}

-- The name that a server reads from the words of a request.
abbrev pub name_of : ℕ → ℕ → ℕ → List ℕ
name_of arg0 arg1 len = take len (word_bytes arg0 ++ word_bytes arg1)

eight :
    (s : List ℕ)
    → take (min 8 (length s)) (
        get_or s 0 0
        ∷ get_or s 1 0
        ∷ get_or s 2 0
        ∷ get_or s 3 0
        ∷ get_or s 4 0
        ∷ get_or s 5 0
        ∷ get_or s 6 0
        ∷ get_or s 7 0
        ∷ [])
      ≡ take 8 s
eight [] = refl
eight (a ∷ []) = refl
eight (a ∷ b ∷ []) = refl
eight (a ∷ b ∷ c ∷ []) = refl
eight (a ∷ b ∷ c ∷ d ∷ []) = refl
eight (a ∷ b ∷ c ∷ d ∷ e ∷ []) = refl
eight (a ∷ b ∷ c ∷ d ∷ e ∷ f ∷ []) = refl
eight (a ∷ b ∷ c ∷ d ∷ e ∷ f ∷ g ∷ []) = refl
eight (a ∷ b ∷ c ∷ d ∷ e ∷ f ∷ g ∷ h ∷ s) =
    let all : min 8 (length (a ∷ b ∷ c ∷ d ∷ e ∷ f ∷ g ∷ h ∷ s)) ≡ 8 = omega arith in rw all refl

take-words :
    (l l' : ℕ) (a a' b b' : List ℕ)
    → l ≡ l'
    → a ≡ a'
    → b ≡ b'
    → take l (a ++ b) ≡ take l' (a' ++ b')
take-words l l' a a' b b' e f g = cc

-- The words of a name hold its first eight bytes.
pub name_of-write_str_param :
    (s : List ℕ)
    → All (λ b. b < 2 ^ 8) s
    → let ((arg0, arg1), len) = write_str_param s in name_of arg0 arg1 len ≡ take 8 s
name_of-write_str_param s h =
    let (low, high, len) = write_str_param_lem s h in take-words _ _ _ _ _ _ len low high ∙ eight s

-- What the reply to a request for a handle holds behind its header.
abbrev pub HandleReply : ℕ → Option ℕ → List ℕ → Type 0
HandleReply not_found none buf = get_or buf 1 0 ≡ not_found
HandleReply not_found (some handle) buf =
    (get_or buf 1 0 ≡ 0) × (get_or buf 2 0 < 2 ^ 26) × (get_or buf 3 0 ≡ handle) × (handle ≢ 0)

abbrev pub flag : Option ℕ → ℕ
flag none = 0
flag (some handle) = 1

abbrev pub is_some : Option ℕ → Bool
is_some none = false
is_some (some handle) = true

-- A service manager that answers the requests 0x5 and 0xe at once, from the names that are
-- registered, and registers none on its own.
pub record Server {W : Type 0} (m : Machine W) (registered : W → List ℕ → Option ℕ) (not_found : ℕ)
    : Type 0 where
  pub whole_buffer : (w : W) → length (m.command_buffer w) ≡ command_buffer_length
  pub failure : not_found ≢ 0
  pub gives_handle :
      (client arg0 arg1 len flags : ℕ) (msg : List ℕ) (w : W)
      → take 5 msg ≡ 0x5_0100 ∷ arg0 ∷ arg1 ∷ len ∷ flags ∷ []
      → let (r, w') = m.svc 0x32 (word client ∷ []) (m.store_command_buffer msg w) in
        (r 0 ≡ 0)
        × (registered w' ≡ registered w)
        × HandleReply not_found (registered w (name_of arg0 arg1 len)) (m.command_buffer w')
  pub tells_registered :
      (client arg0 arg1 len : ℕ) (msg : List ℕ) (w : W)
      → take 4 msg ≡ 0xe_00c0 ∷ arg0 ∷ arg1 ∷ len ∷ []
      → let (r, w') = m.svc 0x32 (word client ∷ []) (m.store_command_buffer msg w) in
        (r 0 ≡ 0)
        × (registered w' ≡ registered w)
        × (get_or (m.command_buffer w') 1 0 ≡ 0)
        × (get_or (m.command_buffer w') 2 0 ≡ flag (registered w (name_of arg0 arg1 len)))

-- The lookup in a registry, whose names have at most eight bytes.
abbrev pub lookup : ℕ → (List ℕ → Option ℕ) → List ℕ → Outcome ℕ
lookup not_found registry name = elim (registry (take 8 name)) [
  | none ↦ err not_found
  | some h ↦ ok h
]

-- The first of the names that is registered, with its index from `i` on.
abbrev pub first_registered : ℕ → (List ℕ → Option ℕ) → List (List ℕ) → ℕ → ℕ → Outcome (ℕ × ℕ)
first_registered not_found registry [] i e = err e
first_registered not_found registry (name ∷ names) i e =
    let rest = first_registered not_found registry names (i + 1) not_found in
    elim (registry (take 8 name)) [ none ↦ rest | some h ↦ ok (h, i) ]
