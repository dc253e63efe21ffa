-- ===== src/SharedState/Queue/Fifo.antt =====
-- What the G-code queue promises: a first-in first-out queue of at most 32 lines, each cut to 95
-- bytes. `Op` and `Reply` are a client's calls and what it sees of them.
use pico2w_grbl_bridge.Base.{
  ℕ, ◌-◌, Bool, true, false, Option, none, some, List, [], ◌∷◌, ◌++◌, length, ltb, if◌then◌else◌,
  Bytes,
}
use pico2w_grbl_bridge.CString.{strncpy}

pub data Op : Type 0 where
  put : Bytes → Op
  get : ℕ → Op
  count : Op

pub data Reply : Type 0 where
  accepted : Bool → Reply
  line : Option Bytes → Reply
  size : ℕ → Reply

abbrev pub Fifo : Type 0
Fifo = List Bytes

unfoldable pub push : Fifo → Bytes → Bool × Fifo
push q x = if ltb (length q) 32 then (true, q ++ (strncpy 95 x ∷ [])) else (false, q)

unfoldable pub pop : Fifo → ℕ → Option Bytes × Fifo
pop [] out_cap = (none, [])
pop (x ∷ q) out_cap = (some (strncpy (out_cap - 1) x), q)

unfoldable pub run : Fifo → List Op → List Reply
run q [] = []
run q (put x ∷ ops) = let (ok, q') = push q x in accepted ok ∷ run q' ops
run q (get out_cap ∷ ops) = let (out, q') = pop q out_cap in line out ∷ run q' ops
run q (count ∷ ops) = size (length q) ∷ run q ops
