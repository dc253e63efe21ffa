-- ===== src/SharedState/Heartbeat/Laws.antt =====
-- The heartbeat over a run of status reports.
use pico2w_grbl_bridge.Base.{ℕ, zero, suc, ◌+◌, ◌/◌, ◌^◌, ◌<◌, ◌≡◌, ◌||◌, arith, ltb}
use pico2w_grbl_bridge.SharedState.Heartbeat.{Heartbeat, notify_status_line}

-- `n` status reports in a row
unfoldable pub notify_n : ℕ → Heartbeat → Heartbeat
notify_n zero b = b
notify_n (suc n) b = notify_n n (notify_status_line b)

-- After `n` reports a pulse is pending exactly if one was pending before, or the count of reports
-- has reached or passed a multiple of ten. (The count stays below its wrap at 2^32.)
pulse_pending-notify_n :
    (n : ℕ) (b : Heartbeat)
    → b.line_count + n < 2 ^ 32
    → (notify_n n b).pulse_pending
      ≡ (b.pulse_pending || ltb (b.line_count / 10) ((b.line_count + n) / 10))
unfolding notify_n notify_status_line
pulse_pending-notify_n zero b h = ground arith
pulse_pending-notify_n (suc n) b h = ground (arith, pulse_pending-notify_n n (notify_status_line b))
