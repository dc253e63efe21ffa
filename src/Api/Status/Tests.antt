-- ===== src/Api/Status/Tests.antt =====
-- Tests of the status response.
use pico2w_grbl_bridge.SharedState.Shared.{Shared}
use pico2w_grbl_bridge.Base.{◌<◌, ◌≡◌, arith, length}
use pico2w_grbl_bridge.SharedState.Shared
use pico2w_grbl_bridge.WifiConfig
use pico2w_grbl_bridge.Api.Status.{handle_status}
use pico2w_grbl_bridge.Api.Status.Fits.{handle_status_fits}
use pico2w_grbl_bridge.Api.Status.Examples.{digits_only}

handle_status_fits_example :
    let r = handle_status digits_only 100 (Shared.initial b'0') WifiConfig.initial in
    (length r.body ≡ r.body_len) × (length r.body < 100)
handle_status_fits_example =
    handle_status_fits digits_only 100 (Shared.initial b'0') WifiConfig.initial (omega arith)
