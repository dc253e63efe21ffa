-- ===== src/SharedState/Realtime.antt =====
-- The realtime requests of src/shared_state.c: one flag for each kind.
pub mod Laws
mod Tests
use pico2w_grbl_bridge.Base.{ℕ, Bool, true, false, Option, none, some, ◌==◌, if◌then◌else◌}

-- `rt_hold`, `rt_resume`, `rt_reset`
pub record Realtime : Type 0 where
  pub hold : Bool
  pub resume : Bool
  pub reset : Bool

abbrev pub initial : Realtime
initial = record { hold = false; resume = false; reset = false }

-- `shared_state_request_realtime`
unfoldable pub request : Realtime → ℕ → Realtime
request r which =
    if which == b'!'
    then record r { hold = true }
    else if which == b'~'
    then record r { resume = true }
    else if which == 0x18
    then record r { reset = true }
    else r

-- `shared_state_take_realtime`: `some` holds what is written to `out`.
unfoldable pub take : Realtime → Option ℕ × Realtime
take r =
    if r.hold
    then (some b'!', record r { hold = false })
    else if r.resume
    then (some b'~', record r { resume = false })
    else if r.reset
    then (some 0x18, record r { reset = false })
    else (none, r)
