-- ===== src/SharedState/Filtered/Laws.antt =====
-- The filtered log against its contract: a snapshot is the newest lines of all that were pushed,
-- numbered from 1 in the order of the pushes.
use pico2w_grbl_bridge.Base.{
  ℕ, zero, suc, ◌+◌, ◌-◌, ◌%◌, ◌≤◌, ◌<◌, min, ◌≡◌, refl, sym, ap, ap₂, ◌∙◌, List, [], ◌∷◌, ◌++◌,
  arith, length, length-set, newest, ltb, if◌then◌else◌, Bytes, get_or,
}
use pico2w_grbl_bridge.Base.Window.{window, window-log_room, window-log_full, window-newest}
use pico2w_grbl_bridge.CString.{strncpy}
use pico2w_grbl_bridge.SharedState.Sizes.{add_u32}
use pico2w_grbl_bridge.SharedState.Filtered.{
  Filtered, initial, push, copy_seqs, copy_lines, snapshot,
}

pub record IsValid (f : Filtered) : Type 0 where
  pub line_slots : length f.lines ≡ 32
  pub seq_slots : length f.seqs ≡ 32
  pub head_in : f.head < 32
  pub count_in : f.count ≤ 32

abbrev pub contents : Filtered → List Bytes
contents f = window [] f.lines 32 f.head f.count

abbrev pub numbers : Filtered → List ℕ
numbers f = window 0 f.seqs 32 f.head f.count

pub initial-IsValid : IsValid initial
initial-IsValid = omega arith

pub push-IsValid : {f : Filtered} (line : Bytes) → IsValid f → IsValid (push f line)
unfolding push
push-IsValid {f} line v = ground (
  arith,
  length-set f.lines (add_u32 f.head f.count % 32) (strncpy 119 line),
  length-set f.seqs (add_u32 f.head f.count % 32) f.next_seq,
)

pub contents-push :
    {f : Filtered} (line : Bytes)
    → IsValid f
    → contents (push f line) ≡ newest 32 (contents f ++ (strncpy 119 line ∷ []))
unfolding push
contents-push {f} line v =
    let i : ℕ = add_u32 f.head f.count % 32 in
    let x : Bytes = strncpy 119 line in
    ground (
      arith,
      window-log_room [] f.lines 32 x f.head f.count i,
      window-log_full [] f.lines 32 x f.head f.count i,
    )

pub numbers-push :
    {f : Filtered} (line : Bytes)
    → IsValid f
    → numbers (push f line) ≡ newest 32 (numbers f ++ (f.next_seq ∷ []))
unfolding push
numbers-push {f} line v =
    let i : ℕ = add_u32 f.head f.count % 32 in
    ground (
      arith,
      window-log_room 0 f.seqs 32 f.next_seq f.head f.count i,
      window-log_full 0 f.seqs 32 f.next_seq f.head f.count i,
    )

pub next_seq-push : (f : Filtered) (line : Bytes) → (push f line).next_seq ≡ add_u32 f.next_seq 1
unfolding push
next_seq-push f line = ground arith

module _ (f : Filtered) (skip : ℕ) where
  abbrev index : ℕ → ℕ
  index i = (f.head + (skip + i)) % 32

  index_next : (i : ℕ) → (index i + 1) % 32 ≡ index (i + 1)
  index_next i = omega arith

  index_here :
      (i : ℕ) → f.head < 32 → skip + i ≤ 32 → add_u32 (add_u32 f.head skip) i % 32 ≡ index i
  index_here i h k = omega arith

copy_lines-window :
    (f : Filtered) (skip left i : ℕ)
    → IsValid f
    → skip + left + i ≤ 32
    → copy_lines f skip left i ≡ window [] f.lines 32 (index f skip i) left
unfolding copy_lines
copy_lines-window f skip zero i v h = refl
copy_lines-window f skip (suc left) i v h =
    ap₂ ◌∷◌ (ap (λ k. get_or f.lines k []) (index_here f skip i v.head_in (omega arith))) (
      copy_lines-window f skip left (i + 1) v (omega arith)
      ∙ ap (λ k. window [] f.lines 32 k left) (sym (index_next f skip i)))

copy_seqs-window :
    (f : Filtered) (skip left i : ℕ)
    → IsValid f
    → skip + left + i ≤ 32
    → copy_seqs f skip left i ≡ window 0 f.seqs 32 (index f skip i) left
unfolding copy_seqs
copy_seqs-window f skip zero i v h = refl
copy_seqs-window f skip (suc left) i v h =
    ap₂ ◌∷◌ (ap (λ k. get_or f.seqs k 0) (index_here f skip i v.head_in (omega arith))) (
      copy_seqs-window f skip left (i + 1) v (omega arith)
      ∙ ap (λ k. window 0 f.seqs 32 k left) (sym (index_next f skip i)))

-- A snapshot holds the newest lines of the log and their numbers, oldest first.
pub snapshot-contents :
    {f : Filtered} (max_lines : ℕ)
    → IsValid f
    → (let (seqs, lines) = snapshot f max_lines in
        (seqs ≡ newest max_lines (numbers f)) × (lines ≡ newest max_lines (contents f)))
unfolding snapshot
snapshot-contents {f} max_lines v = (
  copy_seqs-window f (f.count - n) n 0 v (omega (arith, within))
      ∙ ap (λ k. window 0 f.seqs 32 (k % 32) n) start
      ∙ window-newest 0 f.seqs 32 f.head f.count max_lines n v.head_in within,
  copy_lines-window f (f.count - n) n 0 v (omega (arith, within))
      ∙ ap (λ k. window [] f.lines 32 (k % 32) n) start
      ∙ window-newest [] f.lines 32 f.head f.count max_lines n v.head_in within,
)
  where
    n : ℕ
    n = if ltb f.count max_lines then f.count else max_lines

    within : n ≡ min f.count max_lines
    within = ground arith

    start : f.head + (f.count - n + 0) ≡ f.head + (f.count - n)
    start = omega arith
