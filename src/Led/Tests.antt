-- ===== src/Led/Tests.antt =====
-- Tests of the LED.
use pico2w_grbl_bridge.Base.{refl, true}
use pico2w_grbl_bridge.SharedState.Heartbeat
use pico2w_grbl_bridge.Led.{Led, initial, normal, led_task}
use pico2w_grbl_bridge.Led.Sound.{IsSound, led_task-IsSound}

abbrev lit : Led
lit = record initial {
  phase = normal;
  led_on = true;
  heartbeat_active = true;
  heartbeat_off_at = 60;
}

led_task-IsSound_example : IsSound (led_task 70 lit Heartbeat.initial).0
led_task-IsSound_example = led_task-IsSound 70 lit Heartbeat.initial refl
