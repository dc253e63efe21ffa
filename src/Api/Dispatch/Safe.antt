-- ===== src/Api/Dispatch/Safe.antt =====
-- Only a POST changes anything.
use pico2w_grbl_bridge.Base.{ℕ, ◌≡◌, false, arith, Bytes, codes}
use pico2w_grbl_bridge.CString.{str_eq}
use pico2w_grbl_bridge.Floats.{Floats}
use pico2w_grbl_bridge.Api.Dispatch.{Site, api_dispatch}

-- A request whose method is not "POST", whatever its path and body, changes neither the shared
-- state nor the pending WiFi update.
pub api_dispatch_safe :
    (fl : Floats) (index_html method path body : Bytes) (cap_len now : ℕ) (site : Site fl.Real)
    → str_eq method (codes "POST") ≡ false
    → (api_dispatch fl index_html method path body cap_len now site).1 ≡ site
unfolding api_dispatch
api_dispatch_safe fl index_html method path body cap_len now site h = ground arith
