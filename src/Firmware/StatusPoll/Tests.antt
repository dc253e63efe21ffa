-- ===== src/Firmware/StatusPoll/Tests.antt =====
-- A poll of /api/status and its answer.
use pico2w_grbl_bridge.HttpServer.Examples.{narrow}
use pico2w_grbl_bridge.Base.{ℕ, true, codes, Bytes}
use pico2w_grbl_bridge.SharedState.Machine
use pico2w_grbl_bridge.SharedState.Console
use pico2w_grbl_bridge.SharedState.Filtered
use pico2w_grbl_bridge.WifiConfig
use pico2w_grbl_bridge.Api.Status.Examples.{alarmed}
use pico2w_grbl_bridge.Api.Dispatch.{Site}
use pico2w_grbl_bridge.HttpServer.Callbacks.{Env}

abbrev poll : Bytes
poll = codes "GET /api/status HTTP/1.1\r\nHost: pico\r\n\r\n"

abbrev site : Site ℕ
site = record { shared = alarmed; wifi = WifiConfig.initial }

abbrev env : Env
env = record { tcp = narrow; close_ok = true; now = 7 }
