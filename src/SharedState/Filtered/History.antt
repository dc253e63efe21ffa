-- ===== src/SharedState/Filtered/History.antt =====
-- The filtered log over a whole run: what the web page's polls see of all lines ever pushed.
use mathlib.Core.List.{map-append}
use pico2w_grbl_bridge.Base.{
  length-append, length-map, ℕ, zero, suc, ◌+◌, ◌-◌, ◌%◌, ◌^◌, ◌≤◌, ◌<◌, ◌≡◌, refl, sym, ap, ◌∙◌,
  List, [], ◌∷◌, ◌++◌, map, arith, length, newest, Bytes, append_assoc, append-nil,
}
use pico2w_grbl_bridge.Base.Newest.{newest-newest, newest-snoc, newest-append_le}
use pico2w_grbl_bridge.CString.{strncpy}
use pico2w_grbl_bridge.SharedState.Sizes.{add_u32}
use pico2w_grbl_bridge.SharedState.Filtered.{Filtered, initial, push, snapshot}
use pico2w_grbl_bridge.SharedState.Filtered.Laws.{
  IsValid, contents, numbers, initial-IsValid, push-IsValid, contents-push, numbers-push,
  next_seq-push, snapshot-contents,
}

-- the pushes of `lines`, in order
unfoldable pub push_all : Filtered → List Bytes → Filtered
push_all f [] = f
push_all f (line ∷ lines) = push_all (push f line) lines

-- The number that stands `n` after `k` in `uint32_t`, and the `n` numbers from `k` on.
abbrev pub seq_after : ℕ → ℕ → ℕ
seq_after k n = (k + n) % 2 ^ 32

unfoldable pub count_from : ℕ → ℕ → List ℕ
count_from k zero = []
count_from k (suc n) = k ∷ count_from (add_u32 k 1) n

push_all-IsValid : (lines : List Bytes) {f : Filtered} → IsValid f → IsValid (push_all f lines)
unfolding push_all
push_all-IsValid [] v = v
push_all-IsValid (line ∷ lines) v = push_all-IsValid lines (push-IsValid line v)

-- What the ring holds is the newest part of its history: `past` and `past_seqs`, and the pushes.
contents-push_all :
    (lines past : List Bytes) {f : Filtered}
    → IsValid f
    → contents f ≡ newest 32 past
    → contents (push_all f lines) ≡ newest 32 (past ++ map (strncpy 119) lines)
unfolding push_all
contents-push_all [] past v e = e ∙ ap (newest 32) (sym (append-nil past))
contents-push_all (line ∷ lines) past {f} v e =
    contents-push_all lines (past ++ (strncpy 119 line ∷ [])) (push-IsValid line v) pushed
    ∙ ap (newest 32) (append_assoc past (strncpy 119 line ∷ []) (map (strncpy 119) lines))
  where
    pushed : contents (push f line) ≡ newest 32 (past ++ (strncpy 119 line ∷ []))
    pushed =
        contents-push line v
        ∙ ap (λ held. newest 32 (held ++ (strncpy 119 line ∷ []))) e
        ∙ newest-snoc 31 past (strncpy 119 line)

numbers-push_all :
    (lines : List Bytes) (past : List ℕ) {f : Filtered}
    → IsValid f
    → numbers f ≡ newest 32 past
    → numbers (push_all f lines) ≡ newest 32 (past ++ count_from f.next_seq (length lines))
unfolding push_all count_from
numbers-push_all [] past v e = e ∙ ap (newest 32) (sym (append-nil past))
numbers-push_all (line ∷ lines) past {f} v e =
    numbers-push_all lines (past ++ (f.next_seq ∷ [])) (push-IsValid line v) pushed
    ∙ ap (newest 32) (
        append_assoc past (f.next_seq ∷ []) (count_from (push f line).next_seq (length lines))
        ∙ ap (λ k. past ++ (f.next_seq ∷ count_from k (length lines))) (next_seq-push f line))
  where
    pushed : numbers (push f line) ≡ newest 32 (past ++ (f.next_seq ∷ []))
    pushed =
        numbers-push line v
        ∙ ap (λ held. newest 32 (held ++ (f.next_seq ∷ []))) e
        ∙ newest-snoc 31 past f.next_seq

-- From the start of the firmware, a snapshot of at most `max_lines` lines (32 or fewer) holds
-- exactly the newest `max_lines` of all lines ever pushed, in order, each cut to 119 bytes, and
-- beside each line its number: the pushes are numbered 1, 2, 3, …, and go from 2^32 - 1 to 0.
pub snapshot-push_all :
    (lines : List Bytes) (max_lines : ℕ)
    → max_lines ≤ 32
    → (let (seqs, copied) = snapshot (push_all initial lines) max_lines in
        (seqs ≡ newest max_lines (count_from 1 (length lines)))
        × (copied ≡ newest max_lines (map (strncpy 119) lines)))
snapshot-push_all lines max_lines h =
    let taken = snapshot-contents max_lines (push_all-IsValid lines initial-IsValid) in
    (
      taken.0
          ∙ ap (newest max_lines) (numbers-push_all lines [] initial-IsValid refl)
          ∙ newest-newest max_lines 32 (count_from 1 (length lines)) h,
      taken.1
          ∙ ap (newest max_lines) (contents-push_all lines [] initial-IsValid refl)
          ∙ newest-newest max_lines 32 (map (strncpy 119) lines) h,
    )

count_from-append :
    (m n k : ℕ) → k < 2 ^ 32 → count_from k (m + n) ≡ count_from k m ++ count_from (seq_after k m) n
unfolding count_from
count_from-append zero n k h =
    let whole : zero + n ≡ n = omega arith in
    let here : seq_after k 0 ≡ k = omega arith in rw (whole, here)
count_from-append (suc m) n k h =
    let whole : suc m + n ≡ suc (m + n) = omega arith in
    let there : seq_after (add_u32 k 1) m ≡ seq_after k (suc m) = omega arith in
    rw whole (
      ap (◌∷◌ k) (
        count_from-append m n (add_u32 k 1) (omega arith)
        ∙ ap (λ j. count_from (add_u32 k 1) m ++ count_from j n) there))

length-count_from : (k n : ℕ) → length (count_from k n) ≡ n
unfolding count_from
length-count_from k zero = refl
length-count_from k (suc n) = ap suc (length-count_from (add_u32 k 1) n)

-- A poll loses no line of the log: if no more than `max_lines` lines (32 or fewer) were pushed since some
-- moment of the run, a snapshot of `max_lines` ends in exactly those lines with their numbers,
-- which follow on the numbers of the lines before that moment. (The numbers go on with 0 behind
-- 2^32 - 1, so that once in 2^32 lines a line has the number 0, which the web page takes for none.)
pub snapshot-recent :
    (past recent : List Bytes) (max_lines : ℕ)
    → length recent ≤ max_lines
    → max_lines ≤ 32
    → (let (seqs, copied) = snapshot (push_all initial (past ++ recent)) max_lines in
        let older : ℕ = max_lines - length recent in
        (copied ≡ newest older (map (strncpy 119) past) ++ map (strncpy 119) recent)
        × (seqs
            ≡ newest older (count_from 1 (length past))
              ++ count_from (seq_after 1 (length past)) (length recent)))
snapshot-recent past recent max_lines few h =
    let (seqs, copied) = snapshot-push_all (past ++ recent) max_lines h in
    let later : List ℕ = count_from (seq_after 1 (length past)) (length recent) in
    (
      copied
          ∙ ap (newest max_lines) (map-append (strncpy 119) past recent)
          ∙ newest-append_le max_lines (length recent) (map (strncpy 119) past)
              (map (strncpy 119) recent) (length-map (strncpy 119) recent) few,
      seqs
          ∙ ap (λ n. newest max_lines (count_from 1 n)) (length-append past recent)
          ∙ ap (newest max_lines) (count_from-append (length past) (length recent) 1 (omega arith))
          ∙ newest-append_le max_lines (length recent) (count_from 1 (length past)) later
              (length-count_from (seq_after 1 (length past)) (length recent)) few,
    )
