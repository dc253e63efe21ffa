-- ===== src/SharedState/Console/Tests.antt =====
-- Tests of the console log.
use pico2w_grbl_bridge.Base.{◌≡◌, refl, [], ◌∷◌, codes, arith, newest, map}
use pico2w_grbl_bridge.CString.{strncpy}
use pico2w_grbl_bridge.SharedState.Console.{initial, push, snapshot}
use pico2w_grbl_bridge.SharedState.Console.Laws.{push_all, snapshot-push_all}

snapshot_two :
    snapshot (push (push initial (codes "a")) (codes "b")) 12 ≡ codes "a" ∷ codes "b" ∷ []
unfolding snapshot push strncpy
snapshot_two = refl

snapshot-push_all_example :
    snapshot (push_all initial (codes "ok" ∷ codes "error:9" ∷ [])) 12
    ≡ newest 12 (map (strncpy 119) (codes "ok" ∷ codes "error:9" ∷ []))
snapshot-push_all_example = snapshot-push_all (codes "ok" ∷ codes "error:9" ∷ []) 12 (omega arith)
