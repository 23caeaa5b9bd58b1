-- ===== src/Srv/Refines.antt =====
-- The client of src/ports/srv.rs over a service manager with a registry: what its requests for
-- handles return, as lookups.
use ctru_rt.Base.{
  ℕ, ◌+◌, ◌^◌, ◌<◌, ◌≡◌, ◌≢◌, refl, ◌∙◌, arith, List, [], ◌∷◌, take, get_or, All, Bool, not, ◌==◌,
  Outcome, ok, err, panic, Option, none, some,
}
use ctru_rt.Codes.ErrorCode
use ctru_rt.Machine.{Machine, word, continue, ◌>>=◌, pure}
use ctru_rt.Ipc.Header
use ctru_rt.Ipc.Reply
use ctru_rt.Ipc.Translate.{decode_owned_handle}
use ctru_rt.Ipc.Client.{read_handle, read_word}
use ctru_rt.Ipc.Exchange.{received, ask-parameters}
use ctru_rt.Srv.{
  Srv, policy_value, write_str_param, get_service_handle, try_names,
  get_service_handle_alternatives, is_service_registered,
}
use ctru_rt.Srv.Registry.{
  name_of, name_of-write_str_param, HandleReply, flag, is_some, Server, lookup, first_registered,
}

-- The handle behind a reply that has no error.
read_reply :
    (debug : Bool) (buf : List ℕ) (h : ℕ)
    → get_or buf 2 0 < 2 ^ 26
    → get_or buf 3 0 ≡ h
    → h ≢ 0
    → decode_owned_handle debug (record { cmdbuf = buf; read_ptr = 2 })
      ≡ ok (h, record { cmdbuf = buf; read_ptr = 4 })
unfolding decode_owned_handle Reply.read
read_reply debug buf h small here ne = ground arith

module _ {W : Type 0} (m : Machine W) (debug : Bool) (registered : W → List ℕ → Option ℕ)
    (not_found : ℕ) (server : Server m registered not_found) (srv : Srv) where
  -- What the client makes of an answer to the request for a handle.
  handle_received :
      (found : Option ℕ) (r : ℕ → ℕ) (w' : W)
      → r 0 ≡ 0
      → HandleReply not_found found (m.command_buffer w')
      → continue (received m (r, w')) (read_handle debug)
        ≡ (elim found [ none ↦ err not_found | some h ↦ ok h ], w')
  handle_received none r w' e h = ground (arith, server.failure)
  handle_received (some handle) r w' e h =
      ground (arith, read_reply debug (m.command_buffer w') handle h.1 h.2 h.3)

  -- And of one to the question whether a name is registered.
  flag-received :
      (found : Option ℕ) (r : ℕ → ℕ) (w' : W)
      → r 0 ≡ 0
      → get_or (m.command_buffer w') 1 0 ≡ 0
      → get_or (m.command_buffer w') 2 0 ≡ flag found
      → continue (received m (r, w')) (λ reply. read_word reply >>= λ (w : ℕ). pure (not (w == 0)))
        ≡ (ok (is_some found), w')
  unfolding Reply.read_word Reply.read
  flag-received none r w' e g h = ground arith
  flag-received (some handle) r w' e g h = ground arith

  get_service_handle_lem :
      (name : List ℕ) (w : W)
      → All (λ b. b < 2 ^ 8) name
      → let (r, w') = get_service_handle m debug srv name w in
        (r ≡ lookup not_found (registered w) name) × (registered w' ≡ registered w)
  unfolding get_service_handle Header.new
  get_service_handle_lem name w bytes =
      let ((arg0, arg1), len) = write_str_param name in
      let flags = policy_value srv.blocking_policy in
      let (msg, start, sent) =
        ask-parameters m (arg0 ∷ arg1 ∷ len ∷ flags ∷ []) 0x5 srv.handle w (omega arith)
          (server.whole_buffer w) in
      let (r, w') = m.svc 0x32 (word srv.handle ∷ []) (m.store_command_buffer msg w) in
      let (good, same, reply) = server.gives_handle srv.handle arg0 arg1 len flags msg w start in
      let got = handle_received (registered w (name_of arg0 arg1 len)) r w' good reply in
      rw (sent, got, name_of-write_str_param name bytes) (refl, same)

  is_service_registered_lem :
      (name : List ℕ) (w : W)
      → All (λ b. b < 2 ^ 8) name
      → let (r, w') = is_service_registered m debug srv name w in
        (r ≡ ok (is_some (registered w (take 8 name)))) × (registered w' ≡ registered w)
  unfolding is_service_registered Header.new
  is_service_registered_lem name w bytes =
      let ((arg0, arg1), len) = write_str_param name in
      let (msg, start, sent) =
        ask-parameters m (arg0 ∷ arg1 ∷ len ∷ []) 0xe srv.handle w (omega arith)
          (server.whole_buffer w) in
      let (r, w') = m.svc 0x32 (word srv.handle ∷ []) (m.store_command_buffer msg w) in
      let (good, same, result, told) =
        server.tells_registered srv.handle arg0 arg1 len msg w start in
      let got = flag-received (registered w (name_of arg0 arg1 len)) r w' good result told in
      rw (sent, got, name_of-write_str_param name bytes) (refl, same)

  first_registered_same :
      (names : List (List ℕ)) (i x : ℕ) (f g : List ℕ → Option ℕ)
      → x ≡ not_found
      → f ≡ g
      → first_registered not_found f names i x ≡ first_registered not_found g names i not_found
  first_registered_same names i x f g p q = cc

  try_names_lem :
      (names : List (List ℕ)) (i e : ℕ) (w : W)
      → All (All (λ b. b < 2 ^ 8)) names
      → let (r, w') = try_names m debug srv names i e w in
        (r ≡ first_registered not_found (registered w) names i e) × (registered w' ≡ registered w)
  unfolding try_names
  try_names_lem [] i e w bytes = (refl, refl)
  try_names_lem (name ∷ names) i e w bytes =
      go (get_service_handle m debug srv name w) (registered w (take 8 name))
        (get_service_handle_lem name w bytes.0) (λ x v. try_names_lem names (i + 1) x v bytes.1)
    where
      go :
          (a : Outcome ℕ × W) (found : Option ℕ)
          → (a.0 ≡ elim found [ none ↦ err not_found | some h ↦ ok h ])
            × (registered a.1 ≡ registered w)
          → ((x : ℕ) (v : W)
              → let (r, w') = try_names m debug srv names (i + 1) x v in
                (r ≡ first_registered not_found (registered v) names (i + 1) x)
                × (registered w' ≡ registered v))
          → let (r, w') = elim a.0 as (λ _. Outcome (ℕ × ℕ) × W) [
            | ok handle ↦ (ok (handle, i), a.1)
            | err x ↦ try_names m debug srv names (i + 1) x a.1
            | panic ↦ (panic, a.1)
          ] in
            (r ≡ elim found [
              | none ↦ first_registered not_found (registered w) names (i + 1) not_found
              | some h ↦ ok (h, i)
            ])
            × (registered w' ≡ registered w)
      go (ok h, v) none (is, same) next = absurd (ground arith)
      go (ok h, v) (some g) (is, same) next = (ground arith, same)
      go (err x, v) (some g) (is, same) next = absurd (ground arith)
      go (err x, v) none (is, same) next =
          let last : x ≡ not_found = ground arith in
          let (result, kept) = next x v in
          (result ∙ first_registered_same names (i + 1) x _ _ last same, kept ∙ same)
      go (panic, v) none (is, same) next = absurd (ground arith)
      go (panic, v) (some g) (is, same) next = absurd (ground arith)

  -- Over a service manager that answers at once from the names that are registered: a request for a
  -- handle returns that of the name, cut to eight bytes, or the server's error; of several names
  -- the first that is registered is taken, with its index, and no name gives ERROR_NOT_AUTHORIZED;
  -- the question whether a name is registered is answered by it; and none of them changes what is
  -- registered.
  pub client_refines :
      (name : List ℕ) (names : List (List ℕ)) (w : W)
      → All (λ b. b < 2 ^ 8) name
      → All (All (λ b. b < 2 ^ 8)) names
      → ((get_service_handle m debug srv name w).0 ≡ lookup not_found (registered w) name)
        × ((get_service_handle_alternatives m debug srv names w).0
            ≡ first_registered not_found (registered w) names 0 ErrorCode.not_authorized)
        × ((is_service_registered m debug srv name w).0 ≡ ok (is_some (registered w (take 8 name))))
        × (registered (get_service_handle m debug srv name w).1 ≡ registered w)
        × (registered (get_service_handle_alternatives m debug srv names w).1 ≡ registered w)
        × (registered (is_service_registered m debug srv name w).1 ≡ registered w)
  unfolding get_service_handle_alternatives
  client_refines name names w bytes all_bytes =
      let one = get_service_handle_lem name w bytes in
      let several = try_names_lem names 0 ErrorCode.not_authorized w all_bytes in
      let asked = is_service_registered_lem name w bytes in
      (one.0, several.0, asked.0, one.1, several.1, asked.1)
