-- ===== src/HttpServer/Callbacks/Run.antt =====
-- The life of a connection: lwIP's callbacks, one after the other.
use pico2w_grbl_bridge.Base.{Option, none, some, List, [], ◌∷◌, Bytes}
use pico2w_grbl_bridge.Floats.{Floats}
use pico2w_grbl_bridge.Api.Dispatch.{Site}
use pico2w_grbl_bridge.HttpServer.Conn.{Conn}
use pico2w_grbl_bridge.HttpServer.Callbacks.{Env, err_ok, After, on_recv, on_sent, on_poll, on_err}

pub data Event : Type 0 where
  recv : Option Bytes → Event
  sent polled failed : Event

-- A callback, what it meets, and what the handlers find: the rest of the firmware may have changed
-- that since the last callback.
pub record Call (F : Type 0) : Type 0 where
  pub env : Env
  pub event : Event
  pub site : Site F

-- what a callback found and what it left, and the bytes it wrote
pub record Entry (F : Type 0) : Type 0 where
  pub before : Site F
  pub after : Site F
  pub written : Bytes

module _ (fl : Floats) (index_html : Bytes) where
  open fl use {Real}

  abbrev pub step : Event → Env → Conn → Site Real → After Real
  step (recv p) e c site = on_recv fl index_html e p c site
  step sent e c site = on_sent e c site
  step polled e c site = on_poll e c site
  step failed e c site = record { conn = on_err c; err = err_ok; written = []; site = site }

  -- A connection that is freed gets no more callbacks.
  unfoldable pub run : List (Call Real) → Option Conn → Option Conn × List (Entry Real)
  run [] o = (o, [])
  run (call ∷ calls) none = (none, [])
  run (call ∷ calls) (some c) =
      let a = step call.event call.env c call.site in
      let (o, log) = run calls a.conn in
      (o, record { before = call.site; after = a.site; written = a.written } ∷ log)
