-- ===== src/Services/Ac.antt =====
-- src/services/ac.rs: the service that knows the state of the wireless connection.
use ctru_rt.Base.{
  ◌<◌, ℕ, ◌==◌, if◌then◌else◌, Bool, true, false, [], ◌∷◌, Outcome, ok, err, ◌≡◌, ◌⊎◌, arith,
}
use ctru_rt.Base.{◌>>=◌ as ◌>>?◌}
use ctru_rt.Machine.{Machine, Sys, ◌>>=◌, lift, or_else}
use ctru_rt.Codes.Level
use ctru_rt.Codes.Summary
use ctru_rt.Codes.Origin.{Module}
use ctru_rt.Codes.Description
use ctru_rt.Codes.ErrorCode
use ctru_rt.Codes.ResultCode
use ctru_rt.Codes.Origin
use ctru_rt.Ipc.Reply.{CommandBufferReader}
use ctru_rt.Ipc.Client.{ask, read_word}
use ctru_rt.Ipc.Request.{command}
use ctru_rt.Srv.{Srv, get_service_handle}

pub data WifiStatus : Type 0 where
  no_connection old_3ds_connection new_3ds_connection : WifiStatus

unfoldable pub is_connected : WifiStatus → Bool
is_connected no_connection = false
is_connected _ = true

-- The match on the result word.
unfoldable pub status_from : ℕ → Outcome WifiStatus
unfolding Description.to_value
status_from result =
    if result == 0
    then ok no_connection
    else if result == 1
    then ok old_3ds_connection
    else if result == 2
    then ok new_3ds_connection
    else ErrorCode.new Level.fatal Summary.invalid_result_value Module.ac
        (Description.to_value Description.invalid_result_value)
      >>? λ (code : ℕ). err code

module _ {W : Type 0} (m : Machine W) (debug : Bool) where
  -- "ac:i", else "ac:u"
  unfoldable pub init : Srv → Sys W ℕ
  init srv =
      or_else (get_service_handle m debug srv (97 ∷ 99 ∷ 58 ∷ 105 ∷ []))
        (get_service_handle m debug srv (97 ∷ 99 ∷ 58 ∷ 117 ∷ []))

  unfoldable pub wifi_status : ℕ → Sys W WifiStatus
  unfolding status_from
  wifi_status ac = ask m ac (λ buf. ok (command buf 0xd)) >>= read_word >>= λ (result : ℕ).
      lift (status_from result)

  -- The status is returned for the result words 0, 1 and 2 of a reply, in their order, and the
  -- others fail with the code that says that the service gave a value that is not valid.
  pub wifi_status_lem :
      (ac : ℕ) (w w' : W) (reply : CommandBufferReader) (result : ℕ)
      → ask m ac (λ buf. ok (command buf 0xd)) w ≡ (ok reply, w')
      → read_word reply w' ≡ (ok result, w')
      → (result ≡ 0) × (wifi_status ac w ≡ (ok no_connection, w'))
        ⊎ (result ≡ 1) × (wifi_status ac w ≡ (ok old_3ds_connection, w'))
        ⊎ (result ≡ 2) × (wifi_status ac w ≡ (ok new_3ds_connection, w'))
        ⊎ (2 < result)
          × (wifi_status ac w ≡ (
            err (
                ResultCode.new Level.fatal Summary.invalid_result_value Module.ac
                  (Description.to_value Description.invalid_result_value)),
            w',
          ))
  unfolding wifi_status status_from ErrorCode.new ResultCode.new Level.to_value Summary.to_value
      Origin.to_value Description.to_value
  wifi_status_lem ac w w' reply result a r = ground arith
