-- ===== src/SharedState/Realtime/Laws.antt =====
-- The realtime flags against their contract: requests are coalesced, and each kind that was asked
-- for is handed out once, holds before resumes before resets.
use pico2w_grbl_bridge.Base.{
  ℕ, zero, suc, ◌≡◌, refl, ap, ◌∙◌, Bool, true, false, ◌||◌, none, some, List, [], ◌∷◌, ◌++◌, arith,
  if◌then◌else◌,
}
use pico2w_grbl_bridge.CString.{mem_byte}
use pico2w_grbl_bridge.SharedState.Realtime.{Realtime, initial, request, take}

unfoldable pub request_all : Realtime → List ℕ → Realtime
request_all r [] = r
request_all r (which ∷ rest) = request_all (request r which) rest

-- `n` calls of `shared_state_take_realtime`, and the bytes that they hand out.
unfoldable pub take_n : ℕ → Realtime → List ℕ
take_n zero r = []
take_n (suc n) r =
    let (out, r') = take r in elim out [ none ↦ take_n n r' | some c ↦ c ∷ take_n n r' ]

abbrev pub only : Bool → ℕ → List ℕ
only b c = if b then c ∷ [] else []

-- The flags are exactly the kinds asked for.
request_all-flags :
    (r : Realtime) (whichs : List ℕ)
    → request_all r whichs ≡ record {
      hold = r.hold || mem_byte b'!' whichs;
      resume = r.resume || mem_byte b'~' whichs;
      reset = r.reset || mem_byte 0x18 whichs;
    }
unfolding request_all mem_byte request
request_all-flags r [] = ground arith
request_all-flags r (which ∷ rest) = ground (arith, request_all-flags (request r which) rest)

take_n-none : (n : ℕ) → take_n n initial ≡ []
unfolding take_n take
take_n-none zero = refl
take_n-none (suc n) = take_n-none n

take_n-flags :
    (n : ℕ) (hold resume reset : Bool)
    → take_n (suc (suc (suc n))) (record { hold = hold; resume = resume; reset = reset })
      ≡ only hold b'!' ++ (only resume b'~' ++ only reset 0x18)
unfolding take_n take
take_n-flags n true true true = rw (take_n-none n)
take_n-flags n true true false = rw (take_n-none n)
take_n-flags n true false true = rw (take_n-none n)
take_n-flags n true false false = rw (take_n-none n)
take_n-flags n false true true = rw (take_n-none n)
take_n-flags n false true false = rw (take_n-none n)
take_n-flags n false false true = rw (take_n-none n)
take_n-flags n false false false = rw (take_n-none n)

-- After any requests from the start, three or more calls of `shared_state_take_realtime` hand out
-- '!', '~' and 0x18, in this order, each exactly once if it was asked for at least once and not at
-- all otherwise; no other byte is ever handed out.
take_n-request_all :
    (whichs : List ℕ) (n : ℕ)
    → take_n (suc (suc (suc n))) (request_all initial whichs)
      ≡ only (mem_byte b'!' whichs) b'!'
        ++ (only (mem_byte b'~' whichs) b'~' ++ only (mem_byte 0x18 whichs) 0x18)
take_n-request_all whichs n =
    ap (take_n (suc (suc (suc n)))) (request_all-flags initial whichs)
    ∙ take_n-flags n (mem_byte b'!' whichs) (mem_byte b'~' whichs) (mem_byte 0x18 whichs)
