-- ===== src/SharedState/Queue/Tests.antt =====
-- Tests of the G-code queue.
use pico2w_grbl_bridge.Base.{◌≡◌, refl, [], ◌∷◌, codes, true, some, none, List}
use pico2w_grbl_bridge.CString.{strncpy}
use pico2w_grbl_bridge.SharedState.Queue.{initial, push, pop, len}
use pico2w_grbl_bridge.SharedState.Queue.Fifo
use pico2w_grbl_bridge.SharedState.Queue.Fifo.{Op, put, get, count, accepted, line, size}
use pico2w_grbl_bridge.SharedState.Queue.Laws.{run, run_refines}

abbrev script : List Op
script = put (codes "G0 X1") ∷ put (codes "G0 X2") ∷ count ∷ get 96 ∷ get 3 ∷ get 96 ∷ []

run-script :
    run initial script
    ≡ accepted true
      ∷ accepted true
      ∷ size 2
      ∷ line (some (codes "G0 X1"))
      ∷ line (some (codes "G0"))
      ∷ line none
      ∷ []
unfolding run push pop len strncpy
run-script = refl

run_refines_example : run initial script ≡ Fifo.run [] script
run_refines_example = run_refines script
