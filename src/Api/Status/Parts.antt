-- ===== src/Api/Status/Parts.antt =====
-- How long the parts of the status are.
use pico2w_grbl_bridge.SharedState.Filtered.{Filtered}
use pico2w_grbl_bridge.SharedState.Console.{Console}
use pico2w_grbl_bridge.Base.{
  ℕ, zero, suc, ◌+◌, ◌*◌, ◌^◌, ◌<◌, ◌≤◌, ◌≡◌, refl, ap, Bool, true, false, List, [], ◌∷◌, arith,
  length, Bytes, codes, ltb, if◌then◌else◌, ◌-◌,
}
use pico2w_grbl_bridge.CString.Decimal.{decimal}
use pico2w_grbl_bridge.CString.Decimal.Digits.{length-decimal}
use pico2w_grbl_bridge.SharedState.Console
use pico2w_grbl_bridge.SharedState.Filtered
use pico2w_grbl_bridge.WifiConfig.{Mode, sta, ap as access_point}
use pico2w_grbl_bridge.Api.Output.Json.{visible}
use pico2w_grbl_bridge.Api.Status.{mode_name}
use pico2w_grbl_bridge.Api.Status.Tree.{strings, sequence, text_or_null, number_if}
use pico2w_grbl_bridge.Json.{number, string}
use pico2w_grbl_bridge.Json.Text.{quoted}
use pico2w_grbl_bridge.Json.Size.{
  Fits, ItemsFit, item-Fits, no_items_fit, string-Fits, number-Fits, null-Fits, weaken_items,
}

-- Each line takes at most `n` bytes with its escapes.
abbrev pub AllShort : ℕ → List Bytes → Type 0
AllShort n [] = Unit
AllShort n (text ∷ lines) = (length (quoted (visible text)) ≤ n) × AllShort n lines

abbrev pub AllWords : List ℕ → Type 0
AllWords [] = Unit
AllWords (seq ∷ seqs) = (seq < 2 ^ 32) × AllWords seqs

pub word-Fits : (n : ℕ) → n < 2 ^ 32 → Fits 10 (number (decimal n))
word-Fits n h = number-Fits (decimal n) 10 (length-decimal 9 n (omega (arith, h)))

pub strings_fit :
    (n : ℕ) (lines : List Bytes)
    → AllShort n lines
    → ItemsFit (length lines * (n + 3) + 1) (strings lines)
unfolding strings
strings_fit n [] h = weaken_items (omega arith) no_items_fit
strings_fit n (text ∷ lines) h =
    weaken_items (omega arith)
      (item-Fits (string-Fits (visible text) n h.0) (strings_fit n lines h.1))

pub sequence_fits :
    (seqs : List ℕ) → AllWords seqs → ItemsFit (length seqs * 11 + 1) (sequence seqs)
unfolding sequence
sequence_fits [] h = weaken_items (omega arith) no_items_fit
sequence_fits (seq ∷ seqs) h =
    weaken_items (omega arith) (item-Fits (word-Fits seq h.0) (sequence_fits seqs h.1))

pub text-Fits :
    (s : Bytes) (n : ℕ) → length (quoted (visible s)) ≤ n → 2 ≤ n → Fits (n + 2) (text_or_null s)
text-Fits [] n h le = null-Fits (n + 2) (omega arith)
text-Fits (c ∷ s) n h le = string-Fits (visible (c ∷ s)) n h

pub number_if-Fits : (given : Bool) (t : Bytes) → length t ≤ 44 → Fits 44 (number_if given t)
number_if-Fits true t h = number-Fits t 44 h
number_if-Fits false t h = null-Fits 44 (omega arith)

pub mode-Fits : (m : Mode) → Fits 5 (string (mode_name m))
unfolding quoted
mode-Fits access_point = string-Fits (codes "ap") 3 (omega arith)
mode-Fits sta = string-Fits (codes "sta") 3 (omega arith)

length-copy_out : (c : Console) (skip n i : ℕ) → length (Console.copy_out c skip n i) ≡ n
unfolding Console.copy_out
length-copy_out c skip zero i = refl
length-copy_out c skip (suc n) i = ap suc (length-copy_out c skip n (i + 1))

length-copy_lines : (f : Filtered) (skip n i : ℕ) → length (Filtered.copy_lines f skip n i) ≡ n
unfolding Filtered.copy_lines
length-copy_lines f skip zero i = refl
length-copy_lines f skip (suc n) i = ap suc (length-copy_lines f skip n (i + 1))

length-copy_seqs : (f : Filtered) (skip n i : ℕ) → length (Filtered.copy_seqs f skip n i) ≡ n
unfolding Filtered.copy_seqs
length-copy_seqs f skip zero i = refl
length-copy_seqs f skip (suc n) i = ap suc (length-copy_seqs f skip n (i + 1))

pub length-console : (c : Console) (n : ℕ) → length (Console.snapshot c n) ≤ n
unfolding Console.snapshot
length-console c n =
    let k : ℕ = if ltb c.count n then c.count else n in
    ground (arith, length-copy_out c (c.count - k) k 0)

pub length-filtered :
    (f : Filtered) (n : ℕ)
    → (length (Filtered.snapshot f n).0 ≤ n) × (length (Filtered.snapshot f n).1 ≤ n)
unfolding Filtered.snapshot
length-filtered f n =
    let k : ℕ = if ltb f.count n then f.count else n in
    ground (arith, length-copy_seqs f (f.count - k) k 0, length-copy_lines f (f.count - k) k 0)
