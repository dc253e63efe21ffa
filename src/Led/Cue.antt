-- ===== src/Led/Cue.antt =====
-- The cue of three flashes.
use pico2w_grbl_bridge.Base.{ℕ, ◌+◌, ◌≤◌, ◌≡◌, Bool, true, false, List, [], ◌∷◌, arith, leb}
use pico2w_grbl_bridge.SharedState.Heartbeat.{Heartbeat}
use pico2w_grbl_bridge.Led.{Led, Phase, boot, normal, notify_got_ip, led_task}

-- The LED after each call of `led_task`, and the phase behind the last.
unfoldable pub shown : List ℕ → Led → Heartbeat → List Bool × Phase
shown [] l b = ([], l.phase)
shown (now ∷ times) l b =
    let (l', b') = led_task now l b in
    let (rest, last) = shown times l' b' in (l'.led_on ∷ rest, last)

due : (a b : ℕ) → a ≤ b → leb a b ≡ true
due a b h = ground arith

-- From the boot phase, once an IP address is there, six calls of `led_task` that are at least 80 ms
-- apart light the LED at the first, third and fifth and put it out at the others: three flashes.
-- Then the LED is in its normal phase.
shown_cue :
    (l : Led) (b : Heartbeat) (start t1 t2 t3 t4 t5 t6 : ℕ)
    → l.phase ≡ boot
    → start ≤ t1
    → t1 + 80000 ≤ t2
    → t2 + 80000 ≤ t3
    → t3 + 80000 ≤ t4
    → t4 + 80000 ≤ t5
    → t5 + 80000 ≤ t6
    → shown (t1 ∷ t2 ∷ t3 ∷ t4 ∷ t5 ∷ t6 ∷ []) (notify_got_ip start l) b
      ≡ (true ∷ false ∷ true ∷ false ∷ true ∷ false ∷ [], normal)
unfolding shown notify_got_ip led_task
shown_cue l b start t1 t2 t3 t4 t5 t6 e h1 h2 h3 h4 h5 h6 = rw (
  e,
  due start t1 h1,
  due (t1 + 80000) t2 h2,
  due (t2 + 80000) t3 h3,
  due (t3 + 80000) t4 h4,
  due (t4 + 80000) t5 h5,
  due (t5 + 80000) t6 h6,
)
