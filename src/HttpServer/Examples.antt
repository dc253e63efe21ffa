-- ===== src/HttpServer/Examples.antt =====
-- What the tests of the HTTP server start from.
use pico2w_grbl_bridge.HttpServer.Send.Whole.{AllGive}
use pico2w_grbl_bridge.HttpServer.Send.{Lwip}
use pico2w_grbl_bridge.Base.{true, ℕ, if◌then◌else◌, ◌==◌, replicate, zero, suc, refl, arith}
use pico2w_grbl_bridge.SharedState.Shared
use pico2w_grbl_bridge.WifiConfig
use pico2w_grbl_bridge.Api.Dispatch.{Site}
use pico2w_grbl_bridge.HttpServer.Callbacks.{Env}

-- lwIP has room for 1000 bytes a round, and takes every write.
abbrev pub env : Env
env = record {
  tcp = record { sndbuf = λ round. 1000; write_ok = λ round. true };
  close_ok = true;
  now = 7;
}

-- what the handlers find behind the initialisers
abbrev pub site : Site ℕ
site = record { shared = Shared.initial 0; wifi = WifiConfig.initial }

-- room for seven bytes a call, in one round
abbrev pub narrow : Lwip
narrow = record { sndbuf = λ round. if round == 0 then 7 else 0; write_ok = λ round. true }

pub narrow_gives : (n : ℕ) → AllGive (replicate n narrow)
narrow_gives zero = tt
narrow_gives (suc n) = ((omega arith, refl), narrow_gives n)
