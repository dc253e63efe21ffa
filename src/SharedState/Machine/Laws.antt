-- ===== src/SharedState/Machine/Laws.antt =====
-- The alarm banner over a run: it is what the last error or alarm line said, until a command of
-- the user clears it, whatever else happens to the machine state.
use pico2w_grbl_bridge.Base.{ℕ, ◌≡◌, refl, Bool, true, false, List, [], ◌∷◌, Bytes}
use pico2w_grbl_bridge.CString.{strncpy}
use pico2w_grbl_bridge.SharedState.Machine.{
  MachineState, set_status, set_connected, set_alarm, clear_alarm,
}

-- the calls that change the machine state
pub data Op (F : Type 0) : Type 0 where
  status : MachineState F → ℕ → Op F
  connected : Bool → Op F
  alarm : Bytes → Op F
  clear : Op F

module _ {F : Type 0} where
  unfoldable pub apply : Op F → MachineState F → MachineState F
  apply (status new now_ms) s = set_status s new now_ms
  apply (connected b) s = set_connected s b
  apply (alarm text) s = set_alarm s text
  apply clear s = clear_alarm s

  unfoldable pub run : List (Op F) → MachineState F → MachineState F
  unfolding apply
  run [] s = s
  run (op ∷ ops) s = run ops (apply op s)

  -- The banner that a run shows, from the alarm lines and the user's commands alone.
  unfoldable pub banner : List (Op F) → Bytes → Bytes
  banner [] shown = shown
  banner (status _ _ ∷ ops) shown = banner ops shown
  banner (connected _ ∷ ops) shown = banner ops shown
  banner (alarm text ∷ ops) shown = banner ops (strncpy 79 text)
  banner (clear ∷ ops) shown = banner ops []

  -- After any calls, the banner is that of the last alarm or error line, cut to 79 bytes, if no
  -- command of the user came after it, and empty otherwise: status reports and changes of the
  -- connection never touch it.
  pub alarm-run : (ops : List (Op F)) (s : MachineState F) → (run ops s).alarm ≡ banner ops s.alarm
  unfolding run apply banner set_status set_connected set_alarm clear_alarm
  alarm-run [] s = refl
  alarm-run (status new now_ms ∷ ops) s = alarm-run ops (set_status s new now_ms)
  alarm-run (connected true ∷ ops) s = alarm-run ops (set_connected s true)
  alarm-run (connected false ∷ ops) s = alarm-run ops (set_connected s false)
  alarm-run (alarm text ∷ ops) s = alarm-run ops (set_alarm s text)
  alarm-run (clear ∷ ops) s = alarm-run ops (clear_alarm s)
