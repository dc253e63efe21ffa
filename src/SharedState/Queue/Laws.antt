-- ===== src/SharedState/Queue/Laws.antt =====
-- The ring of `gcode_queue_push` and `gcode_queue_pop` refines the bounded queue of Fifo.
use pico2w_grbl_bridge.Base.{
  ℕ, zero, suc, ◌+◌, ◌-◌, ◌%◌, ◌≤◌, ◌<◌, ◌≡◌, refl, ap, ◌∙◌, List, [], ◌∷◌, ◌++◌, arith, length,
  length-set, get_or, set, Bytes,
}
use pico2w_grbl_bridge.Base.Window.{window, length-window, window-set}
use pico2w_grbl_bridge.CString.{strncpy}
use pico2w_grbl_bridge.SharedState.Sizes.{add_u32}
use pico2w_grbl_bridge.SharedState.Queue.{Queue, initial, push, pop, len}
use pico2w_grbl_bridge.SharedState.Queue.Fifo
use pico2w_grbl_bridge.SharedState.Queue.Fifo.{
  Op, put, get, count, Reply, accepted, line, size, Fifo,
}

pub record IsValid (q : Queue) : Type 0 where
  pub slots : length q.lines ≡ 32
  pub head_in : q.head < 32
  pub count_in : q.count ≤ 32

-- the lines in the queue, the next one first
abbrev pub contents : Queue → Fifo
contents q = window [] q.lines 32 q.head q.count

pub length-contents : (q : Queue) → length (contents q) ≡ q.count
length-contents q = length-window [] q.lines 32 q.head q.count

pub initial-IsValid : IsValid initial
initial-IsValid = omega arith

pub push-IsValid : {q : Queue} (x : Bytes) → IsValid q → IsValid (push q x).1
unfolding push
push-IsValid {q} x v =
    ground (arith, length-set q.lines (add_u32 q.head q.count % 32) (strncpy 95 x))

pub pop-IsValid : {q : Queue} (out_cap : ℕ) → IsValid q → IsValid (pop q out_cap).1
unfolding pop
pop-IsValid out_cap v = ground arith

-- `window` matches on `suc`, the code tests `queue_count > 0`.
window_of_pos :
    (lines : List Bytes) (h n : ℕ)
    → 0 < n
    → window [] lines 32 h n ≡ get_or lines h [] ∷ window [] lines 32 ((h + 1) % 32) (n - 1)
window_of_pos lines h zero p = absurd (omega arith)
window_of_pos lines h (suc n) p = ap (λ k. window [] lines 32 h (suc k)) (omega arith)

window-push :
    (q : Queue) (x : Bytes)
    → IsValid q
    → q.count < 32
    → window [] (set q.lines (add_u32 q.head q.count % 32) x) 32 q.head (q.count + 1)
      ≡ contents q ++ (x ∷ [])
window-push q x v h =
    let i : ℕ = add_u32 q.head q.count % 32 in
    ap (window [] (set q.lines i x) 32 q.head) {y = suc q.count} (omega arith)
    ∙ window-set [] q.lines 32 x q.count q.head i (omega arith) v.head_in h (omega arith)

-- `gcode_queue_push` answers as the bounded queue does, and leaves the ring holding its lines.
pub push_refines :
    {q : Queue} (x : Bytes)
    → IsValid q
    → let (ok, q') = push q x in (ok, contents q') ≡ Fifo.push (contents q) x
unfolding push Fifo.push
push_refines {q} x v = ground (arith, length-contents q, window-push q (strncpy 95 x) v)

-- `gcode_queue_pop` hands out the line that the bounded queue does, and leaves the ring holding
-- the rest.
pub pop_refines :
    {q : Queue} (out_cap : ℕ)
    → IsValid q
    → let (out, q') = pop q out_cap in (out, contents q') ≡ Fifo.pop (contents q) out_cap
unfolding pop Fifo.pop
pop_refines {q} out_cap v = ground (arith, window_of_pos q.lines q.head q.count)

-- a client's calls in order, with what each returns
unfoldable pub run : Queue → List Op → List Reply
run q [] = []
run q (put x ∷ ops) = let (ok, q') = push q x in accepted ok ∷ run q' ops
run q (get out_cap ∷ ops) = let (out, q') = pop q out_cap in line out ∷ run q' ops
run q (count ∷ ops) = size (len q) ∷ run q ops

run_refines_from : (ops : List Op) {q : Queue} → IsValid q → run q ops ≡ Fifo.run (contents q) ops
unfolding run Fifo.run len
run_refines_from [] v = refl
run_refines_from (put x ∷ ops) v = rw (run_refines_from ops (push-IsValid x v), ← push_refines x v)
run_refines_from (get n ∷ ops) v = rw (run_refines_from ops (pop-IsValid n v), ← pop_refines n v)
run_refines_from (count ∷ ops) {q} v = rw (run_refines_from ops v, length-contents q)

-- From the start of the firmware, no sequence of calls of `gcode_queue_push`, `gcode_queue_pop`
-- and `gcode_queue_len` tells the ring from a first-in first-out queue of at most 32 lines.
pub run_refines : (ops : List Op) → run initial ops ≡ Fifo.run [] ops
run_refines ops = run_refines_from ops initial-IsValid
