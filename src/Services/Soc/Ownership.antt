-- ===== src/Services/Soc/Ownership.antt =====
-- Who owns the buffer that is shared with the sockets service, when a call fails and when none
-- does.
use ctru_rt.Base.{ℕ, Bool, ◌≡◌, ◌≢◌, ◌⊎◌, inl, inr, refl, arith, Outcome, ok, err, panic}
use ctru_rt.Machine.{Machine, Sys, ignore}
use ctru_rt.Alloc.{Allocator}
use ctru_rt.Codes.ResultCode
use ctru_rt.Heap.Buffer
use ctru_rt.Heap.Buffer.{PageAlignedBuffer}
use ctru_rt.Machine.Returns.{Returns, bind-Returns, pure-Returns, on_error-Returns}
use ctru_rt.Os.Handle
use ctru_rt.Svc.Calls.{close_handle, svc_unit}
use ctru_rt.Ipc.Request.{command, send}
use ctru_rt.Srv.{Srv}
use ctru_rt.Ipc.Dispatch.{dispatch_lem}
use ctru_rt.Services.Soc.{Soc, shutdown, connect, create, init, drop_buffer, drop, reclaim}

ignore-ok :
    {W A : Type 0} (call : Sys W A) (w : W)
    → (call w).0 ≢ panic
    → ignore call w ≡ (ok tt, (call w).1)
ignore-ok {W} {A} call w = go (call w)
  where
    go : (r : Outcome A × W) → r.0 ≢ panic → ignore (λ (v : W). r) w ≡ (ok tt, r.1)
    go (ok a, v) h = refl
    go (err e, v) h = refl
    go (panic, v) h = absurd (h refl)

module _ {W : Type 0} (m : Machine W) where
  shutdown-returns : (handle : ℕ) (w : W) → (shutdown m handle w).0 ≢ panic
  unfolding shutdown send
  shutdown-returns handle w p =
      ground (arith, p, dispatch_lem m (command (m.command_buffer w) 0x19) handle w)

  drop_handle : (handle : ℕ) (w : W) → Handle.drop m handle w ≡ (ok tt, (Handle.drop m handle w).1)
  unfolding Handle.drop Handle.close close_handle svc_unit ResultCode.into_result
  drop_handle handle w = ground arith

  module _ {S : Type 0} (a : Allocator S) where
    -- The world after the service is dropped.
    abbrev pub dropped : Soc → W → W
    dropped soc w =
        (Handle.drop m soc.buffer_handle (Handle.drop m soc.handle (shutdown m soc.handle w).1).1).1

    drop_lem :
        (soc : Soc) (w : W) (s : S)
        → drop m a soc (w, s) ≡ (ok tt, (dropped soc w, Buffer.drop a soc.buffer s))
    unfolding drop drop_buffer
    drop_lem soc w s =
        rw
          (
            ignore-ok (shutdown m soc.handle) w (shutdown-returns soc.handle w),
            drop_handle soc.handle (shutdown m soc.handle w).1,
            drop_handle soc.buffer_handle (Handle.drop m soc.handle (shutdown m soc.handle w).1).1,
          )
          refl

    -- Where the service accepts the shutdown, reclaiming gives the buffer back, allocated as it
    -- was, and the service has been told to shut down a second time by then. Where it does not, the
    -- error is returned and the buffer is freed.
    pub reclaim_lem :
        (soc : Soc) (w : W) (s : S)
        → let w' : W = (shutdown m soc.handle w).1 in
          ((shutdown m soc.handle w).0 ≡ ok tt)
            × (reclaim m a soc (w, s) ≡ (ok soc.buffer, (dropped soc w', s)))
          ⊎ ((e : ℕ) × ((shutdown m soc.handle w).0 ≡ err e)
              × (reclaim m a soc (w, s) ≡ (err e, (dropped soc w', Buffer.drop a soc.buffer s))))
    unfolding reclaim Buffer.drop Buffer.null
    reclaim_lem soc w s = go (shutdown m soc.handle w) refl (shutdown-returns soc.handle w)
      where
        go :
            (r : Outcome (Unit {0}) × W)
            → shutdown m soc.handle w ≡ r
            → r.0 ≢ panic
            → (r.0 ≡ ok tt) × (reclaim m a soc (w, s) ≡ (ok soc.buffer, (dropped soc r.1, s)))
              ⊎ ((e : ℕ) × (r.0 ≡ err e)
                  × (reclaim m a soc (w, s)
                      ≡ (err e, (dropped soc r.1, Buffer.drop a soc.buffer s))))
        go (ok tt, v) e h =
            inl (refl, rw (e, drop_lem (record soc { buffer = Buffer.null }) v s) refl)
        go (err x, v) e h = inr (x, refl, rw (e, drop_lem soc v s) refl)
        go (panic, v) e h = absurd (h refl)

    connect-Returns :
        (debug : Bool) (srv : Srv) (buffer : PageAlignedBuffer) (buffer_handle : ℕ)
        → Returns (λ (soc : Soc). soc.buffer ≡ buffer) (connect m a debug srv buffer buffer_handle)
    unfolding connect
    connect-Returns debug srv buffer buffer_handle = search (bind-Returns, pure-Returns)

    create-Returns :
        (debug : Bool) (srv : Srv) (buffer : PageAlignedBuffer)
        → Returns (λ (soc : Soc). soc.buffer ≡ buffer) (create m a debug srv buffer)
    unfolding create
    create-Returns debug srv buffer = search (bind-Returns, on_error-Returns, connect-Returns)

    -- Where `init` returns, the service has the buffer that was passed and the allocator is as it
    -- was. Where it fails, the buffer is freed.
    pub init_lem :
        (debug : Bool) (srv : Srv) (buffer : PageAlignedBuffer) (w : W) (s : S)
        → ((soc : Soc) × (w' : W) × (init m a debug srv buffer (w, s) ≡ (ok soc, (w', s)))
            × (soc.buffer ≡ buffer))
          ⊎ ((e : ℕ) × (w' : W) × (init m a debug srv buffer (w, s)
                ≡ (err e, (w', Buffer.drop a buffer s))))
          ⊎ ((w' : W) × (init m a debug srv buffer (w, s) ≡ (panic, (w', s))))
    unfolding init drop_buffer
    init_lem debug srv buffer w s =
        go (create m a debug srv buffer w) refl (create-Returns debug srv buffer w)
      where
        go :
            (r : Outcome Soc × W)
            → create m a debug srv buffer w ≡ r
            → ((w' : W) (soc : Soc)
                → create m a debug srv buffer w ≡ (ok soc, w')
                → soc.buffer ≡ buffer)
            → ((soc : Soc) × (w' : W) × (init m a debug srv buffer (w, s) ≡ (ok soc, (w', s)))
                × (soc.buffer ≡ buffer))
              ⊎ ((e : ℕ) × (w' : W) × (init m a debug srv buffer (w, s)
                    ≡ (err e, (w', Buffer.drop a buffer s))))
              ⊎ ((w' : W) × (init m a debug srv buffer (w, s) ≡ (panic, (w', s))))
        go (ok soc, v) e has = inl (soc, v, rw e refl, has v soc e)
        go (err x, v) e has = inr (inl (x, v, rw e refl))
        go (panic, v) e has = inr (inr (v, rw e refl))
