-- ===== src/SharedState/Machine/Tests.antt =====
-- Tests of the machine state.
use pico2w_grbl_bridge.Base.{ℕ, ◌≡◌, refl, false, [], ◌∷◌, codes, List}
use pico2w_grbl_bridge.CString.{strncpy}
use pico2w_grbl_bridge.SharedState.Machine.{init, zeroed, set_status, set_connected, set_alarm}
use pico2w_grbl_bridge.SharedState.Machine.Laws.{
  Op, status, connected, alarm, run, banner, alarm-run,
}

abbrev script : List (Op ℕ)
script = alarm (codes "ALARM:1") ∷ status (zeroed 0) 7 ∷ connected false ∷ []

alarm_kept : (run script (init {F = ℕ} 0)).alarm ≡ codes "ALARM:1"
unfolding run init set_alarm set_status set_connected strncpy
alarm_kept = refl

alarm-run_example : (run script (init {F = ℕ} 0)).alarm ≡ banner script (init {F = ℕ} 0).alarm
alarm-run_example = alarm-run script (init {F = ℕ} 0)
