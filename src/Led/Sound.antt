-- ===== src/Led/Sound.antt =====
-- What the LED shows in each phase.
use pico2w_grbl_bridge.Base.{refl, ℕ, ◌<◌, ◌≡◌, arith}
use pico2w_grbl_bridge.SharedState.Heartbeat.{Heartbeat, take_led_pulse}
use pico2w_grbl_bridge.Led.{
  Led, Phase, boot, got_ip, normal, notify_got_ip, task_boot, task_got_ip, task_normal, task_in,
  led_task,
}

-- In the cue fewer than three flashes are done; behind it the LED is lit exactly during a pulse.
abbrev pub InPhase : Phase → Led → Type 0
InPhase boot l = Unit
InPhase got_ip l = l.got_ip_flashes_done < 3
InPhase normal l = l.led_on ≡ l.heartbeat_active

abbrev pub IsSound : Led → Type 0
IsSound l = InPhase l.phase l

notify_in :
    (p : Phase) (now : ℕ) (l : Led) → l.phase ≡ p → IsSound l → IsSound (notify_got_ip now l)
unfolding notify_got_ip
notify_in boot now l e h = rw e (omega arith)
notify_in got_ip now l e h = rw e (rw e at h)
notify_in normal now l e h = rw e (rw e at h)

task_in-IsSound :
    (p : Phase) (now : ℕ) (l : Led) (b : Heartbeat)
    → l.phase ≡ p
    → InPhase p l
    → IsSound (task_in p now l b).0
unfolding task_boot task_got_ip task_normal take_led_pulse
task_in-IsSound boot now l b e h = ground (arith, h)
task_in-IsSound got_ip now l b e h = ground (arith, h)
task_in-IsSound normal now l b e h = ground (arith, h)

-- No call of `led_task`, at whatever time and with whatever pulses pending, leaves what holds in
-- each phase: during the cue fewer than three flashes are done, and behind it the LED is lit
-- exactly while a heartbeat pulse is active.
pub led_task-IsSound :
    (now : ℕ) (l : Led) (b : Heartbeat) → IsSound l → IsSound (led_task now l b).0
unfolding led_task
led_task-IsSound now l b h = task_in-IsSound l.phase now l b refl h
