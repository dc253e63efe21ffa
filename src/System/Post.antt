-- ===== src/System/Post.antt =====
-- A POST that core0 dispatches (`api_dispatch` of src/api_handlers.c), and what it makes of the
-- shared state.
use pico2w_grbl_bridge.Base.{ℕ, Bytes, codes}
use pico2w_grbl_bridge.Floats.{Floats}
use pico2w_grbl_bridge.WifiConfig.{Wifi}
use pico2w_grbl_bridge.GrblLink.Pass.{with_shared}
use pico2w_grbl_bridge.Api.Dispatch.{api_dispatch}
use pico2w_grbl_bridge.System.{System}

-- what a POST has beside its path: its body, the time, and core0's state that is not shared
pub record Post : Type 0 where
  pub index_html : Bytes
  pub body : Bytes
  pub cap_len : ℕ
  pub now : ℕ
  pub wifi : Wifi

module _ (fl : Floats) where
  open fl use {Real}

  -- the system behind a POST to `path`
  abbrev pub after_post : Bytes → Post → System Real → System Real
  after_post path p s = record s {
    world =
        with_shared
          (api_dispatch fl p.index_html (codes "POST") path p.body p.cap_len p.now
            (record { shared = s.world.core.shared; wifi = p.wifi })).1.shared
          s.world;
  }
