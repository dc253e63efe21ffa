-- ===== src/Firmware/Watchdog.antt =====
-- When the watchdog is fed.
use pico2w_grbl_bridge.Base.{
  ℕ, ◌+◌, ◌*◌, ◌≤◌, ◌<◌, ◌≡◌, ◌≢◌, refl, ap, Bool, true, false, not, List, [], ◌∷◌, arith,
}
use pico2w_grbl_bridge.Firmware.{Watch, Verdict, watch}

-- passes of the loop in which core1's counter does not move, at their times
unfoldable pub stalled_run : List ℕ → Watch → List Verdict × Watch
stalled_run [] w = ([], w)
stalled_run (now ∷ times) w =
    let (v, w') = watch w.last_core1_tick now now w in
    let (vs, last) = stalled_run times w' in (v ∷ vs, last)

abbrev pub AllLate : ℕ → List ℕ → Type 0
AllLate progress [] = Unit
AllLate progress (now ∷ times) = (progress + 3000 * 1000 ≤ now) × AllLate progress times

-- The verdicts on a stall that has lasted three seconds: the first one disconnects, unless the
-- stall was flagged before, and none feeds.
unfoldable pub silent : List ℕ → Bool → List Verdict
silent [] flagged = []
silent (now ∷ times) flagged = record { feed = false; disconnect = not flagged } ∷ silent times true

-- A pass that sees core1's counter moved feeds the watchdog, if it takes less than three seconds
-- between its two reads of the clock, and takes a flag back.
watch_progress :
    (tick progress_now now : ℕ) (w : Watch)
    → tick ≢ w.last_core1_tick
    → now < progress_now + 3000 * 1000
    → (let (v, w') = watch tick progress_now now w in
        (v.feed ≡ true) × (v.disconnect ≡ false) × (w'.core1_flagged_stalled ≡ false))
unfolding watch
watch_progress tick progress_now now w moved quick = ground arith

watch_stalled :
    (now : ℕ) (w : Watch)
    → w.last_core1_progress + 3000 * 1000 ≤ now
    → watch w.last_core1_tick now now w ≡ (
      record { feed = false; disconnect = not w.core1_flagged_stalled },
      record w { core1_flagged_stalled = true },
    )
unfolding watch
watch_stalled now w late = ground arith

-- Once core1's counter has stood still for three seconds, no pass feeds the watchdog as long as it
-- stands still, and the link is taken for disconnected in exactly the first of these passes.
pub stalled_run-silent :
    (times : List ℕ) (w : Watch)
    → AllLate w.last_core1_progress times
    → (stalled_run times w).0 ≡ silent times w.core1_flagged_stalled
unfolding stalled_run silent
stalled_run-silent [] w h = refl
stalled_run-silent (now ∷ times) w h = rw (watch_stalled now w h.0) (
    ap (◌∷◌ (record { feed = false; disconnect = not w.core1_flagged_stalled }))
      (stalled_run-silent times (record w { core1_flagged_stalled = true }) h.1))
