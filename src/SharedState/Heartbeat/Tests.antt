-- ===== src/SharedState/Heartbeat/Tests.antt =====
-- Tests of the heartbeat.
use pico2w_grbl_bridge.Base.{◌≡◌, refl, true}
use pico2w_grbl_bridge.SharedState.Heartbeat.{initial, notify_status_line}
use pico2w_grbl_bridge.SharedState.Heartbeat.Laws.{notify_n}

notify_ten : (notify_n 10 initial).pulse_pending ≡ true
unfolding notify_n notify_status_line
notify_ten = refl
