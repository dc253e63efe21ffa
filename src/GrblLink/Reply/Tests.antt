-- ===== src/GrblLink/Reply/Tests.antt =====
-- Tests of what a received line does.
use pico2w_grbl_bridge.GrblLink.Reply.Wcs.{reply, g59_1, seeded, on_line-reply}
use pico2w_grbl_bridge.Base.{
  List, arith, if◌then◌else◌, not, ◌&&◌, true, ℕ, ◌≡◌, codes, [], Bytes, refl, ◌∷◌,
}
use pico2w_grbl_bridge.CString.Decimal.{decimal, decimal_from}
use pico2w_grbl_bridge.GrblLink.Reply.Other.{Word, letter, g_word, IsOther}
use pico2w_grbl_bridge.CString.{strncpy, mem_byte}
use pico2w_grbl_bridge.Floats.Examples.{strokes}
use pico2w_grbl_bridge.SharedState.Shared
use pico2w_grbl_bridge.SharedState.Machine.{init}
use pico2w_grbl_bridge.GrblLink.State
use pico2w_grbl_bridge.GrblLink.State.{Core}
use pico2w_grbl_bridge.GrblLink.Reply.{on_line}
use pico2w_grbl_bridge.GrblLink.Reply.Handshake.{releases, alarms, on_line-effect}

-- a core that waits for the reply to a line
abbrev busy : Core ℕ
busy = record { link = record (State.initial 0) { waiting_ok = true }; shared = Shared.initial 0 }

on_line-effect_example :
    let d = on_line strokes 5000 (codes "error:9") busy in
    let line : Bytes = codes "error:9" in
    (d.link.waiting_ok ≡ (true && not (releases line)))
    × (d.shared.machine.alarm ≡ (if alarms line then strncpy 79 line else []))
    × (d.shared.queue ≡ busy.shared.queue)
    × (d.shared.realtime ≡ busy.shared.realtime)
    × (d.link.waiting_deadline ≡ 0)
unfolding init
on_line-effect_example = on_line-effect strokes 5000 (codes "error:9") busy

rapid-IsOther : IsOther (g_word 0 [])
unfolding decimal decimal_from mem_byte
rapid-IsOther = record {
  names_none = (refl, tt);
  clean = (refl, (refl, tt));
  no_colon = (refl, (refl, tt));
}

feed-IsOther : IsOther (letter b'F' (codes "9"))
unfolding mem_byte
feed-IsOther = record {
  names_none = λ e. omega (arith, e);
  clean = (refl, (refl, tt));
  no_colon = (refl, (refl, tt));
}

cancel-IsOther : IsOther (g_word 80 [])
unfolding decimal decimal_from mem_byte
cancel-IsOther = record {
  names_none = (refl, tt);
  clean = (refl, (refl, (refl, tt)));
  no_colon = (refl, (refl, (refl, tt)));
}

-- G0, F9 and G80
abbrev others : List Word
others = g_word 0 [] ∷ letter b'F' (codes "9") ∷ g_word 80 [] ∷ []

reply_is_short :
    strncpy 95 (reply others g59_1 (codes "G17 G21]")) ≡ reply others g59_1 (codes "G17 G21]")
unfolding strncpy decimal decimal_from
reply_is_short = refl

on_line-reply_example :
    (on_line strokes 5000 (codes "[GC:G0 F9 G80 G59.1 G17 G21]") busy).link ≡ seeded g59_1 busy.link
unfolding decimal decimal_from
on_line-reply_example =
    on_line-reply strokes 5000 others g59_1 (codes "G17 G21]") busy
      (rapid-IsOther, (feed-IsOther, (cancel-IsOther, tt))) reply_is_short
