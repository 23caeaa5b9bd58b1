-- ===== src/Services/Apt.antt =====
-- src/services/apt.rs: the applet service, of which one of three names is taken, and the lock on
-- it.
pub mod Names
use ctru_rt.Base.{
  ℕ, ◌+◌, ltb, if◌then◌else◌, Bool, bit_or, ◌<<◌, List, [], ◌∷◌, drop, Option, none, some, Result,
  ok,
}
use ctru_rt.Base.{◌>>=◌ as ◌>>?◌}
use ctru_rt.Machine.{Machine, Sys, ◌>>=◌, ◌>>◌, pure, lift, panics, on_error}
use ctru_rt.EnumCast.{number_variants, match_value}
use ctru_rt.Os.Handle
use ctru_rt.Ipc.Client.{ask, no_reply}
use ctru_rt.Ipc.Reply
use ctru_rt.Ipc.Reply.{CommandBufferReader}
use ctru_rt.Ipc.Request.{command, parameter, parameters}
use ctru_rt.Ipc.Translate.{decode_owned_handle}
use ctru_rt.Srv.{Srv, get_service_handle_alternatives}

-- "APT:S", "APT:A", "APT:U"
unfoldable pub apt_service_names : List (List ℕ)
apt_service_names =
    (65 ∷ 80 ∷ 84 ∷ 58 ∷ 83 ∷ [])
    ∷ (65 ∷ 80 ∷ 84 ∷ 58 ∷ 65 ∷ [])
    ∷ (65 ∷ 80 ∷ 84 ∷ 58 ∷ 85 ∷ [])
    ∷ []

pub data AppId : Type 0 where
  home_menu camera friends_list game_notes web instruction_manual notifications : AppId
  mii_verse mii_verse_posting amiibo_settings application e_shop software_keyboard : AppId
  applet_ed p_note_ap s_note_ap error mint extrapad memolib : AppId

-- `to_value`, and `encode`.
unfoldable pub app_id_value : AppId → ℕ
app_id_value home_menu = 0x101
app_id_value camera = 0x110
app_id_value friends_list = 0x112
app_id_value game_notes = 0x113
app_id_value web = 0x114
app_id_value instruction_manual = 0x115
app_id_value notifications = 0x116
app_id_value mii_verse = 0x117
app_id_value mii_verse_posting = 0x118
app_id_value amiibo_settings = 0x119
app_id_value application = 0x300
app_id_value e_shop = 0x301
app_id_value software_keyboard = 0x401
app_id_value applet_ed = 0x402
app_id_value p_note_ap = 0x404
app_id_value s_note_ap = 0x405
app_id_value error = 0x406
app_id_value mint = 0x407
app_id_value extrapad = 0x408
app_id_value memolib = 0x409

pub data AppPosition : Type 0 where
  app app_lib system system_lib resident no_position : AppPosition

abbrev pub positions : List (AppPosition × Option ℕ)
positions =
    (app, none)
    ∷ (app_lib, none)
    ∷ (system, none)
    ∷ (system_lib, none)
    ∷ (resident, none)
    ∷ (no_position, some 0x7)
    ∷ []

unfoldable pub position_value : AppPosition → ℕ
position_value app = 0
position_value app_lib = 1
position_value system = 2
position_value system_lib = 3
position_value resident = 4
position_value no_position = 7

unfoldable pub position_from_value : ℕ → Result AppPosition ℕ
unfolding number_variants match_value
position_from_value = match_value (number_variants 0 positions)

-- `AppletAttributes`, its byte.
unfoldable pub no_attributes : ℕ
no_attributes = 0

unfoldable pub position : AppPosition → ℕ → ℕ
unfolding position_value
position p attributes = bit_or attributes (position_value p)

unfoldable pub manual_gpu_rights : ℕ → ℕ
manual_gpu_rights attributes = bit_or attributes (1 << 3)

unfoldable pub manual_dsp_rights : ℕ → ℕ
manual_dsp_rights attributes = bit_or attributes (1 << 4)

pub record AptAccess : Type 0 where
  pub srv : Srv
  pub service_name_index : ℕ

pub record AptLock : Type 0 where
  pub mutex : ℕ
  pub access : AptAccess

-- `Apt` is the handle of the service.
module _ {W : Type 0} (m : Machine W) (debug : Bool) where
  unfoldable pub get_lock : ℕ → ℕ → Sys W ℕ
  get_lock apt flags = ask m apt (λ buf. parameter flags (command buf 0x01)) >>= λ reply. lift (
      Reply.read_word reply >>? λ (applet_attributes : ℕ × CommandBufferReader).
      Reply.read_word applet_attributes.1 >>? λ (apt_state : ℕ × CommandBufferReader).
      decode_owned_handle debug apt_state.1 >>? λ (lock : ℕ × CommandBufferReader). ok lock.0)

  -- `Apt::init`
  unfoldable pub init_apt : ℕ → AppId → ℕ → Sys W (ℕ × ℕ)
  init_apt apt app_id attributes =
      ask m apt (λ buf. parameter (app_id_value app_id) (command buf 0x02) >>? parameter attributes)
      >>= λ reply. lift (
          decode_owned_handle debug reply >>? λ (signal_event : ℕ × CommandBufferReader).
          decode_owned_handle debug signal_event.1 >>? λ (resume_event : ℕ × CommandBufferReader).
          ok (signal_event.0, resume_event.0))

  unfoldable pub enable : ℕ → ℕ → Sys W (Unit {0})
  enable apt attributes = ask m apt (λ buf. parameter attributes (command buf 0x03)) >>= no_reply

  -- `service_name_index += matched_offset`
  unfoldable pub matched : AptAccess → ℕ × ℕ → ℕ × AptAccess
  matched access (handle, matched_offset) =
      (handle, record access { service_name_index = access.service_name_index + matched_offset })

  -- The slice from the index on panics where the index is past the end; an index at the end
  -- leaves no name.
  unfoldable pub aquire : AptAccess → Sys W (ℕ × AptAccess)
  unfolding apt_service_names
  aquire access =
      if ltb 3 access.service_name_index
      then panics
      else (get_service_handle_alternatives m debug access.srv
            (drop access.service_name_index apt_service_names)
          >>= λ (found : ℕ × ℕ). pure (matched access found))

  -- `AptLock::init`: the two events and the service's handle are closed when it returns.
  unfoldable pub init : Srv → Sys W AptLock
  unfolding no_attributes
  init srv = aquire (record { srv = srv; service_name_index = 0 }) >>= λ (aquired : ℕ × AptAccess).
      on_error (Handle.drop m aquired.0) (get_lock aquired.0 0x0) >>= λ (mutex : ℕ).
      on_error (Handle.drop m mutex >> Handle.drop m aquired.0) (
        init_apt aquired.0 application
          (manual_dsp_rights (manual_gpu_rights (position app no_attributes))))
      >>= λ (events : ℕ × ℕ).
          Handle.drop m events.1
          >> Handle.drop m events.0
          >> Handle.drop m aquired.0
          >> pure (record { mutex = mutex; access = aquired.1 })
