-- ===== src/Tests/Services.antt =====
-- The services, the error port, debug output, the environment and graphics.
use ctru_rt.Base.{
  ℕ, zero, suc, ◌+◌, ◌-◌, ◌≤◌, ◌<◌, min, ◌≡◌, ◌≢◌, ◌⊎◌, refl, arith, Bool, List, [], ◌∷◌, ◌++◌,
  get_elem?, take, drop, replicate, length, get_or, ok, err, panic, Option, none, some,
}
use ctru_rt.Tests.{kernel, port, client, bump}
use ctru_rt.Codes.ResultCode
use ctru_rt.Ipc.Header
use ctru_rt.Ipc.Reply
use ctru_rt.Ipc.Writer
use ctru_rt.Ipc.Translate.{decode_owned_handle}
use ctru_rt.Ipc.Request.{
  message, command, parameters, send, dispatch, dispatch_no_fail, dispatch_impl,
}
use ctru_rt.Svc.Calls.{send_sync_request, svc_unit}
use ctru_rt.Srv.{
  policy_value, write_str_param, get_service_handle, try_names, get_service_handle_alternatives,
}
use ctru_rt.Env.{Memory, size_hint, collect}
use ctru_rt.Env.Laws.{Packed, end, string, collect_lem}
use ctru_rt.Debug.{new, occupied, write_pieces}
use ctru_rt.Debug.Laws.{write_pieces_lem}
use ctru_rt.Heap.Buffer
use ctru_rt.Heap.Buffer.{PageAlignedBuffer}
use ctru_rt.EnumCast.ValueType.{Meta, other_meta}
use ctru_rt.EnumCast.Parse
use ctru_rt.Services.Apt.{AptAccess, aquire, matched, apt_service_names}
use ctru_rt.Services.Apt.Names.{aquire_lem}
use ctru_rt.Services.Soc.{Soc, shutdown, reclaim, init}
use ctru_rt.Services.Soc.Ownership.{dropped, reclaim_lem, init_lem}
use ctru_rt.Errf.{ErrorInfo, failure, as_words, message_from}
use ctru_rt.Errf.Message.{bytes_of, as_words-message}
use ctru_rt.Gsp.Gpu.{Gpu}
use ctru_rt.Graphics.Init.{Schedules, wait_vblank0}
use ctru_rt.Graphics.Init
use ctru_rt.Graphics.Settled.{Settled}

-- "a" and "bc", each with a zero behind it.
abbrev memory : Memory
memory i = get_or (97 ∷ 0 ∷ 98 ∷ 99 ∷ 0 ∷ []) i 0

first_string : (i : ℕ) → i < 1 → memory (0 + i) ≢ 0
first_string zero h = omega arith
first_string (suc i) h = absurd (omega (arith, h))

second_string : (i : ℕ) → i < 2 → memory (2 + i) ≢ 0
second_string zero h = omega arith
second_string (suc zero) h = omega arith
second_string (suc (suc i)) h = absurd (omega (arith, h))

two_arguments : Packed memory 0 (1 ∷ 2 ∷ [])
two_arguments = string first_string refl (string second_string refl end)

collect_lem_example :
    (collect 3 5 memory (record { length = 2; arguments = 0 })
      ≡ some (record { start = 2; len = 1 } ∷ record { start = 5; len = 2 } ∷ []))
    × ((size_hint (record { length = 2; arguments = 0 })).0 ≡ 2)
collect_lem_example =
    collect_lem memory 5 0 (1 ∷ 2 ∷ []) two_arguments (omega arith, (omega arith, tt))

write_pieces_lem_example :
    occupied (write_pieces ((1 ∷ 2 ∷ 3 ∷ []) ∷ (4 ∷ 5 ∷ []) ∷ []) (new 4)) ≡ 1 ∷ 2 ∷ 3 ∷ 4 ∷ []
write_pieces_lem_example = write_pieces_lem 4 ((1 ∷ 2 ∷ 3 ∷ []) ∷ (4 ∷ 5 ∷ []) ∷ [])

abbrev rows : List (ℕ × Option ℕ)
rows = (0, none) ∷ (1, some 7) ∷ (2, none) ∷ []

-- `#[derive(…)]`, over types that are their names.
abbrev attributes : List Meta
attributes = other_meta ∷ []

-- `"u8"` and `"u32"`
abbrev u8_name : List ℕ
u8_name = 117 ∷ 56 ∷ []

abbrev u32_name : List ℕ
u32_name = 117 ∷ 51 ∷ 50 ∷ []

abbrev access : AptAccess
access = record { srv = client; service_name_index = 1 }

aquired : aquire port Bool.true access [] ≡ (ok (7, access), [])
unfolding aquire matched get_service_handle_alternatives get_service_handle try_names
    write_str_param policy_value parameters command send dispatch dispatch_no_fail dispatch_impl
    message Header.new send_sync_request svc_unit ResultCode.into_result Reply.new Reply.read
    Reply.read_word Reply.reader decode_owned_handle Writer.write Writer.write_all Writer.new
    Writer.advance Writer.finish
aquired = refl

aquire_lem_example :
    (1 ≤ access.service_name_index)
    × (access.service_name_index < 3)
    × (access.srv ≡ client)
    × (name : List ℕ) × (v : List ℕ) × (get_elem? apt_service_names access.service_name_index
        ≡ some name)
    × (get_service_handle port Bool.true client name v ≡ (ok 7, []))
aquire_lem_example = aquire_lem port Bool.true access access 7 [] [] (omega arith) aquired

abbrev buffer : PageAlignedBuffer
buffer = record { buffer = some 0x8000; layout = record { size = 0x1000; align = 0x1000 } }

abbrev soc : Soc
soc = record { handle = 5; buffer = buffer; buffer_handle = 6 }

reclaim_lem_example :
    let w' : List ℕ = (shutdown kernel 5 []).1 in
    ((shutdown kernel 5 []).0 ≡ ok tt)
      × (reclaim kernel bump soc ([], 0x1000) ≡ (ok buffer, (dropped kernel bump soc w', 0x1000)))
    ⊎ ((e : ℕ) × ((shutdown kernel 5 []).0 ≡ err e)
        × (reclaim kernel bump soc ([], 0x1000)
            ≡ (err e, (dropped kernel bump soc w', Buffer.drop bump buffer 0x1000))))
reclaim_lem_example = reclaim_lem kernel bump soc [] 0x1000

init_lem_example :
    ((soc : Soc) × (w' : List ℕ) × (init kernel bump Bool.true client buffer ([], 0x1000)
        ≡ (ok soc, (w', 0x1000)))
      × (soc.buffer ≡ buffer))
    ⊎ ((e : ℕ) × (w' : List ℕ) × (init kernel bump Bool.true client buffer ([], 0x1000)
          ≡ (err e, (w', Buffer.drop bump buffer 0x1000))))
    ⊎ ((w' : List ℕ) × (init kernel bump Bool.true client buffer ([], 0x1000)
          ≡ (panic, (w', 0x1000))))
init_lem_example = init_lem kernel bump Bool.true client buffer [] 0x1000

abbrev text : List ℕ
text = 104 ∷ 105 ∷ []

abbrev report : ErrorInfo
report = record {
  type_ = failure;
  revision_high = 0;
  revision_low = 0;
  result_code = 9;
  pc_addr = 0x100;
  process_id = 3;
  title_id = 0;
  application_title_id = 0;
  failure_message = message_from text;
}

as_words-message_example :
    (length (as_words 0 report) ≡ 32)
    × (bytes_of (drop 8 (as_words 0 report))
        ≡ take 0x5f text ++ replicate (0x60 - min (length text) 0x5f) 0)
as_words-message_example = as_words-message 0 report text (omega arith, (omega arith, tt)) refl

abbrev gpu : Gpu
gpu = record {
  access = 5;
  sharedmem = record {
    gpu_events = 6;
    gsp_module_thread_index = 0;
    shared_memory = record { start = 0x1000_0000; size = 0x1000; handle = 7 };
  };
}

abbrev one_round : Schedules
one_round = record { present_top = []; present_bottom = []; rounds = (1, []) ∷ [] }
