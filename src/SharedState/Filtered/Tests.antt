-- ===== src/SharedState/Filtered/Tests.antt =====
-- Tests of the filtered log.
use pico2w_grbl_bridge.Base.{◌≡◌, refl, [], ◌∷◌, codes, List, Bytes, arith, newest, map, ◌++◌}
use pico2w_grbl_bridge.CString.{strncpy}
use pico2w_grbl_bridge.SharedState.Filtered.{initial, push, snapshot}
use pico2w_grbl_bridge.SharedState.Filtered.History.{
  push_all, count_from, seq_after, snapshot-recent,
}

snapshot_two :
    snapshot (push (push initial (codes "a")) (codes "b")) 30
    ≡ (1 ∷ 2 ∷ [], codes "a" ∷ codes "b" ∷ [])
unfolding snapshot push strncpy
snapshot_two = refl

abbrev old : List Bytes
old = codes "a" ∷ codes "b" ∷ []

abbrev new : List Bytes
new = codes "c" ∷ []

snapshot-recent_example :
    let (seqs, copied) = snapshot (push_all initial (old ++ new)) 2 in
    (copied ≡ newest 1 (map (strncpy 119) old) ++ map (strncpy 119) new)
    × (seqs ≡ newest 1 (count_from 1 2) ++ count_from (seq_after 1 2) 1)
snapshot-recent_example = snapshot-recent old new 2 (omega arith) (omega arith)
