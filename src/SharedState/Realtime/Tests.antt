-- ===== src/SharedState/Realtime/Tests.antt =====
-- Tests of the realtime requests.
use pico2w_grbl_bridge.Base.{ℕ, ◌≡◌, refl, [], ◌∷◌, List}
use pico2w_grbl_bridge.SharedState.Realtime.{initial, request, take}
use pico2w_grbl_bridge.SharedState.Realtime.Laws.{request_all, take_n}

abbrev asked : List ℕ
asked = 0x18 ∷ b'!' ∷ b'!' ∷ b'x' ∷ []

take_n-asked : take_n 4 (request_all initial asked) ≡ b'!' ∷ 0x18 ∷ []
unfolding take_n take request_all request
take_n-asked = refl
