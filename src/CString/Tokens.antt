-- ===== src/CString/Tokens.antt =====
-- `strtok_r` and `strchr` on texts that are put together from pieces.
use pico2w_grbl_bridge.Base.{
  ℕ, ◌≡◌, ◌≢◌, refl, sym, ap, ◌∙◌, true, false, some, [], ◌∷◌, ◌++◌, arith, append-nil,
  append_assoc, Bytes,
}
use pico2w_grbl_bridge.CString.{mem_byte, tokens_from, tokens, split_at}

-- No byte of the text is a delimiter.
abbrev pub Clean : Bytes → Bytes → Type 0
Clean delims [] = Unit
Clean delims (c ∷ s) = (mem_byte c delims ≡ false) × Clean delims s

pub Clean-append : (delims s t : Bytes) → Clean delims s → Clean delims t → Clean delims (s ++ t)
Clean-append delims [] t hs ht = ht
Clean-append delims (c ∷ s) t hs ht = (hs.0, Clean-append delims s t hs.1 ht)

tokens_from-Clean :
    (delims t acc rest : Bytes)
    → Clean delims t
    → tokens_from delims acc (t ++ rest) ≡ tokens_from delims (acc ++ t) rest
unfolding tokens_from
tokens_from-Clean delims [] acc rest h = rw append-nil
tokens_from-Clean delims (c ∷ t) acc rest h = rw h.0 (
    tokens_from-Clean delims t (acc ++ c ∷ []) rest h.1
    ∙ ap (λ k. tokens_from delims k rest) (append_assoc acc (c ∷ []) t))

tokens_from-delim :
    (delims acc rest : Bytes) (d : ℕ)
    → acc ≢ []
    → mem_byte d delims ≡ true
    → tokens_from delims acc (d ∷ rest) ≡ acc ∷ tokens delims rest
unfolding tokens_from tokens
tokens_from-delim delims [] rest d ne h = absurd (ne refl)
tokens_from-delim delims (a ∷ acc) rest d ne h = rw h

-- A piece without delimiters is the first token, if a delimiter follows it, …
pub tokens-cons :
    (delims t rest : Bytes) (d : ℕ)
    → t ≢ []
    → Clean delims t
    → mem_byte d delims ≡ true
    → tokens delims (t ++ (d ∷ rest)) ≡ t ∷ tokens delims rest
unfolding tokens
tokens-cons delims t rest d ne h m =
    tokens_from-Clean delims t [] (d ∷ rest) h ∙ tokens_from-delim delims t rest d ne m

tokens_from-nil : (delims acc : Bytes) → acc ≢ [] → tokens_from delims acc [] ≡ acc ∷ []
unfolding tokens_from
tokens_from-nil delims [] ne = absurd (ne refl)
tokens_from-nil delims (a ∷ acc) ne = refl

-- … and the only one, if nothing follows it.
pub tokens_last : (delims t : Bytes) → t ≢ [] → Clean delims t → tokens delims t ≡ t ∷ []
unfolding tokens
tokens_last delims t ne h =
    ap (tokens_from delims []) (sym (append-nil t))
    ∙ tokens_from-Clean delims t [] [] h
    ∙ tokens_from-nil delims t ne

-- The text before the first `c` and the text behind it.
pub split_at-append :
    (c : ℕ) (key val : Bytes) → Clean (c ∷ []) key → split_at c (key ++ (c ∷ val)) ≡ some (key, val)
unfolding split_at mem_byte
split_at-append c [] val h = ground arith
split_at-append c (d ∷ key) val h = ground (arith, split_at-append c key val h.1)
