-- ===== src/Firmware/StatusPoll.antt =====
-- From a poll of /api/status to the JSON that the client has got.
mod Tests
use pico2w_grbl_bridge.Base.{refl, Option, none, some, List, [], ◌++◌, Bytes}
use pico2w_grbl_bridge.Floats.{Floats}
use pico2w_grbl_bridge.SharedState.Machine
use pico2w_grbl_bridge.HttpServer.Conn.{Conn}
use pico2w_grbl_bridge.HttpServer.Send.{Lwip, send_more, prepare}
use pico2w_grbl_bridge.HttpServer.Send.Whole.{sends}
use pico2w_grbl_bridge.HttpServer.Callbacks.{After}
use pico2w_grbl_bridge.HttpServer.Callbacks.Answer.{dispatched}

-- the bytes that go out over the later calls of `send_more`, if the connection is not freed
abbrev later : List Lwip → Option Conn → Bytes
later calls none = []
later calls (some c) = (sends calls c).1

-- what the client gets in all, from a callback on
abbrev pub received : {F : Type 0} → List Lwip → After F → Bytes
received calls a = a.written ++ later calls a.conn
