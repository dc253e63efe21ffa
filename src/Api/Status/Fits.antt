-- ===== src/Api/Status/Fits.antt =====
-- The status response and its buffer.
use pico2w_grbl_bridge.Base.{ℕ, ◌<◌, ◌≡◌, length}
use pico2w_grbl_bridge.Floats.{Floats}
use pico2w_grbl_bridge.SharedState.Machine
use pico2w_grbl_bridge.SharedState.Console
use pico2w_grbl_bridge.SharedState.Filtered
use pico2w_grbl_bridge.SharedState.Shared.{Shared}
use pico2w_grbl_bridge.WifiConfig.{Wifi}
use pico2w_grbl_bridge.Api.Output.Bounds.{append_all-body}
use pico2w_grbl_bridge.Api.Status.{status_pieces, handle_status}

-- Whatever the machine state, the logs and the WiFi state hold, the status response is written
-- within its buffer of `cap_len` bytes, one or more: the body that is announced and sent is exactly
-- the text written, and leaves room for a NUL.
pub handle_status_fits :
    (fl : Floats) (cap_len : ℕ) (s : Shared fl.Real) (wifi : Wifi)
    → 0 < cap_len
    → (let r = handle_status fl cap_len s wifi in
        (length r.body ≡ r.body_len) × (length r.body < cap_len))
unfolding handle_status
handle_status_fits fl cap_len s wifi room =
    let (seqs, filtered) = Filtered.snapshot s.filtered 30 in
    append_all-body cap_len room
      (status_pieces fl (Machine.get s.machine) (Console.snapshot s.console 12) seqs filtered wifi)
