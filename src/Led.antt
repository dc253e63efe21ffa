-- ===== src/Led.antt =====
-- src/led.c: the onboard LED. A call has one time as an argument, in microseconds, for all its reads
-- of the clock; `set_led` is the field `led_on`, which the GPIO of the CYW43 chip follows.
pub mod Sound
pub mod Cue
mod Tests
use pico2w_grbl_bridge.Base.{ℕ, ◌+◌, ◌*◌, Bool, true, false, not, leb, if◌then◌else◌}
use pico2w_grbl_bridge.SharedState.Heartbeat.{Heartbeat, take_led_pulse}

abbrev pub boot_blink_ms : ℕ
boot_blink_ms = 150

abbrev pub got_ip_flash_on_ms : ℕ
got_ip_flash_on_ms = 80

abbrev pub got_ip_flash_off_ms : ℕ
got_ip_flash_off_ms = 80

abbrev pub got_ip_flash_count : ℕ
got_ip_flash_count = 3

abbrev pub heartbeat_on_ms : ℕ
heartbeat_on_ms = 60

-- `led_phase_t`
pub data Phase : Type 0 where
  boot got_ip normal : Phase

-- the statics
pub record Led : Type 0 where
  pub phase : Phase
  pub led_on : Bool
  pub next_deadline : ℕ
  pub got_ip_flashes_done : ℕ
  pub heartbeat_active : Bool
  pub heartbeat_off_at : ℕ

abbrev pub initial : Led
initial = record {
  phase = boot;
  led_on = false;
  next_deadline = 0;
  got_ip_flashes_done = 0;
  heartbeat_active = false;
  heartbeat_off_at = 0;
}

-- `led_init`
unfoldable pub init : ℕ → Led → Led
init now l = record l { phase = boot; next_deadline = now; led_on = false }

abbrev pub start_cue : ℕ → Led → Phase → Led
start_cue now l boot = record l {
  phase = got_ip;
  got_ip_flashes_done = 0;
  led_on = false;
  next_deadline = now;
}
start_cue now l got_ip = l
start_cue now l normal = l

-- `led_notify_got_ip`
unfoldable pub notify_got_ip : ℕ → Led → Led
notify_got_ip now l = start_cue now l l.phase

unfoldable pub task_boot : ℕ → Led → Led
task_boot now l =
    if leb l.next_deadline now
    then record l { led_on = not l.led_on; next_deadline = now + boot_blink_ms * 1000 }
    else l

unfoldable pub task_got_ip : ℕ → Led → Led
task_got_ip now l =
    let off : Led = record l { led_on = false; got_ip_flashes_done = l.got_ip_flashes_done + 1 } in
    if not (leb l.next_deadline now)
    then l
    else if l.led_on
    then (if leb got_ip_flash_count off.got_ip_flashes_done
        then record off { phase = normal; heartbeat_active = false }
        else record off { next_deadline = now + got_ip_flash_off_ms * 1000 })
    else record l { led_on = true; next_deadline = now + got_ip_flash_on_ms * 1000 }

unfoldable pub task_normal : ℕ → Led → Heartbeat → Led × Heartbeat
task_normal now l b =
    let (pending, b') = take_led_pulse b in
    if l.heartbeat_active
    then (if leb l.heartbeat_off_at now
        then (record l { led_on = false; heartbeat_active = false }, b)
        else (l, b))
    else if pending
    then (
      record l {
        led_on = true;
        heartbeat_active = true;
        heartbeat_off_at = now + heartbeat_on_ms * 1000;
      },
      b',
    )
    else (l, b')

abbrev pub task_in : Phase → ℕ → Led → Heartbeat → Led × Heartbeat
task_in boot now l b = (task_boot now l, b)
task_in got_ip now l b = (task_got_ip now l, b)
task_in normal now l b = task_normal now l b

-- `led_task`
unfoldable pub led_task : ℕ → Led → Heartbeat → Led × Heartbeat
unfolding task_boot task_got_ip task_normal
led_task now l b = task_in l.phase now l b
