-- ===== src/GrblLink/State.antt =====
-- The statics of src/grbl_link.c.
use pico2w_grbl_bridge.Base.{
  ℕ, ◌+◌, ◌*◌, ◌/◌, ◌%◌, ◌^◌, Bool, false, List, [], replicate, leb, Bytes,
}
use pico2w_grbl_bridge.SharedState.Sizes.{grbl_max_axes}
use pico2w_grbl_bridge.SharedState.Shared.{Shared}

abbrev pub status_poll_interval_ms : ℕ
status_poll_interval_ms = 500

abbrev pub line_timeout_ms : ℕ
line_timeout_ms = 30000

abbrev pub no_device_reminder_ms : ℕ
no_device_reminder_ms = 10000

-- Times are microseconds since boot. `time_reached(t)` at time `now`:
abbrev pub time_reached : ℕ → ℕ → Bool
time_reached now t = leb t now

-- `make_timeout_time_ms(ms)` at time `now`
abbrev pub timeout_time_ms : ℕ → ℕ → ℕ
timeout_time_ms now ms = now + ms * 1000

-- `to_ms_since_boot(get_absolute_time())` at time `now`, a `uint32_t`
abbrev pub ms_since_boot : ℕ → ℕ
ms_since_boot now = now / 1000 % 2 ^ 32

pub record Link (F : Type 0) : Type 0 where
  pub waiting_ok : Bool
  pub waiting_deadline : ℕ
  pub next_poll : ℕ
  pub next_no_device_reminder : ℕ
  pub last_status_word : Bytes
  pub last_wco : List F
  pub last_wco_count : ℕ
  pub have_last_wco : Bool
  pub force_next_status_log : Bool
  pub last_wcs : Bytes
  pub have_last_wcs : Bool
  pub need_g_query : Bool

-- the zeroes of the static storage
abbrev pub initial : {F : Type 0} → F → Link F
initial zero_real = record {
  waiting_ok = false;
  waiting_deadline = 0;
  next_poll = 0;
  next_no_device_reminder = 0;
  last_status_word = [];
  last_wco = replicate grbl_max_axes zero_real;
  last_wco_count = 0;
  have_last_wco = false;
  force_next_status_log = false;
  last_wcs = [];
  have_last_wcs = false;
  need_g_query = false;
}

-- `grbl_link_core1_main` up to its loop, for the two reads of the clock
abbrev pub start : {F : Type 0} → ℕ → ℕ → F → Link F
start poll_now reminder_now zero_real = record (initial zero_real) {
  next_poll = timeout_time_ms poll_now status_poll_interval_ms;
  next_no_device_reminder = timeout_time_ms reminder_now no_device_reminder_ms;
}

-- What the line and mount callbacks act on.
pub record Core (F : Type 0) : Type 0 where
  pub link : Link F
  pub shared : Shared F
