-- ===== src/Firmware/Tests.antt =====
-- Tests of core0's loop.
use pico2w_grbl_bridge.Base.{arith, ◌≡◌}
use pico2w_grbl_bridge.Firmware.{[], ◌∷◌, false, Watch}
use pico2w_grbl_bridge.Firmware.Watchdog.{stalled_run, silent, stalled_run-silent}

abbrev at_seven : Watch
at_seven = record { last_core1_tick = 7; last_core1_progress = 1000; core1_flagged_stalled = false }

stalled_run-silent_example :
    (stalled_run (3001000 ∷ 3002000 ∷ []) at_seven).0 ≡ silent (3001000 ∷ 3002000 ∷ []) false
stalled_run-silent_example =
    stalled_run-silent (3001000 ∷ 3002000 ∷ []) at_seven (omega arith, (omega arith, tt))
