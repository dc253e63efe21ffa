-- ===== src/SharedState/Console/Laws.antt =====
-- The console log against its contract: a snapshot is the newest lines of all that were pushed.
use pico2w_grbl_bridge.Base.{
  ℕ, zero, suc, ◌+◌, ◌-◌, ◌%◌, ◌≤◌, ◌<◌, min, ◌≡◌, refl, sym, ap, ap₂, ◌∙◌, List, [], ◌∷◌, ◌++◌,
  map, arith, length, length-set, newest, ltb, if◌then◌else◌, Bytes, append_assoc, append-nil,
  get_or,
}
use pico2w_grbl_bridge.Base.Window.{window, window-log_room, window-log_full, window-newest}
use pico2w_grbl_bridge.Base.Newest.{newest-newest, newest-snoc}
use pico2w_grbl_bridge.CString.{strncpy}
use pico2w_grbl_bridge.SharedState.Sizes.{add_u32}
use pico2w_grbl_bridge.SharedState.Console.{Console, initial, push, copy_out, snapshot}

pub record IsValid (c : Console) : Type 0 where
  pub slots : length c.lines ≡ 32
  pub head_in : c.head < 32
  pub count_in : c.count ≤ 32

-- The lines that the log holds, oldest first.
abbrev pub contents : Console → List Bytes
contents c = window [] c.lines 32 c.head c.count

initial-IsValid : IsValid initial
initial-IsValid = omega arith

pub push-IsValid : {c : Console} (line : Bytes) → IsValid c → IsValid (push c line)
unfolding push
push-IsValid {c} line v =
    ground (arith, length-set c.lines (add_u32 c.head c.count % 32) (strncpy 119 line))

-- A push appends the line, cut to its buffer, and drops the oldest of 33.
pub contents-push :
    {c : Console} (line : Bytes)
    → IsValid c
    → contents (push c line) ≡ newest 32 (contents c ++ (strncpy 119 line ∷ []))
unfolding push
contents-push {c} line v =
    let i : ℕ = add_u32 c.head c.count % 32 in
    let x : Bytes = strncpy 119 line in
    ground (
      arith,
      window-log_room [] c.lines 32 x c.head c.count i,
      window-log_full [] c.lines 32 x c.head c.count i,
    )

copy_out-window :
    (c : Console) (skip left i : ℕ)
    → IsValid c
    → skip + left + i ≤ 32
    → copy_out c skip left i ≡ window [] c.lines 32 ((c.head + (skip + i)) % 32) left
unfolding copy_out
copy_out-window c skip zero i v h = refl
copy_out-window c skip (suc left) i v h =
    let here : add_u32 (add_u32 c.head skip) i % 32 ≡ (c.head + (skip + i)) % 32 = omega arith in
    let next : (c.head + (skip + (i + 1))) % 32 ≡ ((c.head + (skip + i)) % 32 + 1) % 32 =
      omega arith in
    ap₂ ◌∷◌ (ap (λ k. get_or c.lines k []) here) (
      copy_out-window c skip left (i + 1) v (omega arith)
      ∙ ap (λ k. window [] c.lines 32 k left) next)

-- A snapshot holds the newest lines of the log, oldest first.
pub snapshot-contents :
    {c : Console} (max_lines : ℕ) → IsValid c → snapshot c max_lines ≡ newest max_lines (contents c)
unfolding snapshot
snapshot-contents {c} max_lines v =
    copy_out-window c (c.count - n) n 0 v (omega (arith, within))
    ∙ ap (λ k. window [] c.lines 32 (k % 32) n) {y = c.head + (c.count - n)} (omega arith)
    ∙ window-newest [] c.lines 32 c.head c.count max_lines n v.head_in within
  where
    n : ℕ
    n = if ltb c.count max_lines then c.count else max_lines

    within : n ≡ min c.count max_lines
    within = ground arith

-- the pushes of `lines`, in order
unfoldable pub push_all : Console → List Bytes → Console
push_all c [] = c
push_all c (line ∷ lines) = push_all (push c line) lines

push_all-IsValid : (lines : List Bytes) {c : Console} → IsValid c → IsValid (push_all c lines)
unfolding push_all
push_all-IsValid [] v = v
push_all-IsValid (line ∷ lines) v = push_all-IsValid lines (push-IsValid line v)

contents-push_all :
    (lines past : List Bytes) {c : Console}
    → IsValid c
    → contents c ≡ newest 32 past
    → contents (push_all c lines) ≡ newest 32 (past ++ map (strncpy 119) lines)
unfolding push_all
contents-push_all [] past v e = e ∙ ap (newest 32) (sym (append-nil past))
contents-push_all (line ∷ lines) past {c} v e =
    contents-push_all lines (past ++ (strncpy 119 line ∷ [])) (push-IsValid line v) pushed
    ∙ ap (newest 32) (append_assoc past (strncpy 119 line ∷ []) (map (strncpy 119) lines))
  where
    pushed : contents (push c line) ≡ newest 32 (past ++ (strncpy 119 line ∷ []))
    pushed =
        contents-push line v
        ∙ ap (λ held. newest 32 (held ++ (strncpy 119 line ∷ []))) e
        ∙ newest-snoc 31 past (strncpy 119 line)

-- From the start of the firmware, a snapshot of at most `max_lines` lines (32 or fewer) holds
-- exactly the newest `max_lines` of all lines ever pushed, in order, each cut to 119 bytes.
pub snapshot-push_all :
    (lines : List Bytes) (max_lines : ℕ)
    → max_lines ≤ 32
    → snapshot (push_all initial lines) max_lines ≡ newest max_lines (map (strncpy 119) lines)
snapshot-push_all lines max_lines h =
    snapshot-contents max_lines (push_all-IsValid lines initial-IsValid)
    ∙ ap (newest max_lines) (contents-push_all lines [] initial-IsValid refl)
    ∙ newest-newest max_lines 32 (map (strncpy 119) lines) h
