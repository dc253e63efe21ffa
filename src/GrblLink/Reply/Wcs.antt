-- ===== src/GrblLink/Reply/Wcs.antt =====
-- The coordinate system word of a `$G` reply.
use pico2w_grbl_bridge.Base.{
  ℕ, ◌≡◌, ◌≢◌, refl, sym, ap, ◌∙◌, true, none, List, [], ◌∷◌, ◌++◌, arith, Bytes, codes,
}
use pico2w_grbl_bridge.CString.{
  strncpy, str_eq, starts_with, tokens, tokens_from, split_at, mem_byte, strtol,
}
use pico2w_grbl_bridge.CString.Tokens.{Clean, tokens-cons, split_at-append}
use pico2w_grbl_bridge.Floats.{Floats}
use pico2w_grbl_bridge.GrblLink.State.{Link, Core}
use pico2w_grbl_bridge.GrblLink.Reply.Other.{
  Word, letter, g_word, text_of, IsOther, is_wcs_word-other,
}
use pico2w_grbl_bridge.GrblLink.Reply.{is_wcs_word, gc_words, parse_gc_wcs, on_line, answer}

-- the coordinate systems
pub data Wcs : Type 0 where
  g54 : Wcs
  g55 : Wcs
  g56 : Wcs
  g57 : Wcs
  g58 : Wcs
  g59 : Wcs
  g59_1 : Wcs
  g59_2 : Wcs
  g59_3 : Wcs

abbrev pub name_of : Wcs → Bytes
name_of g54 = codes "G54"
name_of g55 = codes "G55"
name_of g56 = codes "G56"
name_of g57 = codes "G57"
name_of g58 = codes "G58"
name_of g59 = codes "G59"
name_of g59_1 = codes "G59.1"
name_of g59_2 = codes "G59.2"
name_of g59_3 = codes "G59.3"

abbrev pub AreOthers : List Word → Type 0
AreOthers [] = Unit
AreOthers (word ∷ words) = IsOther word × AreOthers words

-- the words, each with a blank behind it, in front of `tail`
abbrev pub words_text : List Word → Bytes → Bytes
words_text [] tail = tail
words_text (word ∷ words) tail = text_of word ++ (b' ' ∷ words_text words tail)

-- a reply with other words before the coordinate system, and any text behind it
abbrev pub reply : List Word → Wcs → Bytes → Bytes
reply words wcs rest = codes "[GC:" ++ words_text words (name_of wcs ++ (b' ' ∷ rest))

split_at-none : (c : ℕ) (s : Bytes) → Clean (c ∷ []) s → split_at c s ≡ none
unfolding split_at mem_byte
split_at-none c [] h = refl
split_at-none c (d ∷ s) h = ground (arith, split_at-none c s h.1)

name-Clean : (wcs : Wcs) → Clean (codes " []") (name_of wcs)
unfolding mem_byte
name-Clean wcs = ground arith

name-no_colon : (wcs : Wcs) → Clean (codes ":") (name_of wcs)
unfolding mem_byte
name-no_colon wcs = ground arith

text_given : (word : Word) → text_of word ≢ []
text_given (letter c s) e = cc
text_given (g_word n tail) e = cc

name_given : (wcs : Wcs) → name_of wcs ≢ []
name_given wcs e = ground arith

is_wcs_word-name : (wcs : Wcs) → is_wcs_word (name_of wcs) ≡ true
unfolding is_wcs_word strtol
is_wcs_word-name g54 = refl
is_wcs_word-name g55 = refl
is_wcs_word-name g56 = refl
is_wcs_word-name g57 = refl
is_wcs_word-name g58 = refl
is_wcs_word-name g59 = refl
is_wcs_word-name g59_1 = refl
is_wcs_word-name g59_2 = refl
is_wcs_word-name g59_3 = refl

strncpy-name : (wcs : Wcs) → strncpy 7 (name_of wcs) ≡ name_of wcs
unfolding strncpy
strncpy-name wcs = ground arith

module _ {F : Type 0} where
  -- `last_wcs` and `have_last_wcs` behind the reply
  abbrev pub seeded : Wcs → Link F → Link F
  seeded wcs l = record l { last_wcs = name_of wcs; have_last_wcs = true }

  -- "GC:" before the first word makes no difference.
  gc_words-prefix :
      (word : Bytes) (toks : List Bytes) (l : Link F)
      → Clean (codes ":") word
      → gc_words ((codes "GC:" ++ word) ∷ toks) l ≡ gc_words (word ∷ toks) l
  unfolding gc_words mem_byte
  gc_words-prefix word toks l h =
      rw (split_at-append b':' (codes "GC") word (refl, (refl, tt)), split_at-none b':' word h) refl

  gc_words-name :
      (wcs : Wcs) (toks : List Bytes) (l : Link F) → gc_words (name_of wcs ∷ toks) l ≡ seeded wcs l
  unfolding gc_words
  gc_words-name wcs toks l =
      rw
        (
          split_at-none b':' (name_of wcs) (name-no_colon wcs),
          is_wcs_word-name wcs,
          strncpy-name wcs,
        )
        refl

  gc_words-other :
      (word : Word) (toks : List Bytes) (l : Link F)
      → IsOther word
      → gc_words (text_of word ∷ toks) l ≡ gc_words toks l
  unfolding gc_words
  gc_words-other word toks l o =
      rw (split_at-none b':' (text_of word) o.no_colon, is_wcs_word-other word o.names_none) refl

  gc_words-others :
      (words : List Word) (wcs : Wcs) (rest : Bytes) (l : Link F)
      → AreOthers words
      → gc_words (tokens (codes " []") (words_text words (name_of wcs ++ (b' ' ∷ rest)))) l
        ≡ seeded wcs l
  unfolding mem_byte
  gc_words-others [] wcs rest l h =
      ap (λ toks. gc_words toks l)
        (tokens-cons (codes " []") (name_of wcs) rest b' ' (name_given wcs) (name-Clean wcs) refl)
      ∙ gc_words-name wcs (tokens (codes " []") rest) l
  gc_words-others (word ∷ words) wcs rest l h =
      let tail : Bytes = words_text words (name_of wcs ++ (b' ' ∷ rest)) in
      ap (λ toks. gc_words toks l)
        (tokens-cons (codes " []") (text_of word) tail b' ' (text_given word) h.0.clean refl)
      ∙ gc_words-other word (tokens (codes " []") tail) l h.0
      ∙ gc_words-others words wcs rest l h.1

  -- The first word stands behind "GC:".
  gc_words-first :
      (word tail : Bytes) (l : Link F)
      → word ≢ []
      → Clean (codes " []") word
      → Clean (codes ":") word
      → gc_words (tokens (codes " []") (codes "[GC:" ++ (word ++ (b' ' ∷ tail)))) l
        ≡ gc_words (tokens (codes " []") (word ++ (b' ' ∷ tail))) l
  unfolding tokens tokens_from mem_byte
  gc_words-first word tail l given clean no_colon =
      ap (λ toks. gc_words toks l)
        (tokens-cons (codes " []") (codes "GC:" ++ word) tail b' ' (λ e. cc)
          (refl, (refl, (refl, clean))) refl)
      ∙ gc_words-prefix word (tokens (codes " []") tail) l no_colon
      ∙ ap (λ toks. gc_words toks l)
          (sym (tokens-cons (codes " []") word tail b' ' given clean refl))

  gc_words-reply :
      (words : List Word) (wcs : Wcs) (rest : Bytes) (l : Link F)
      → AreOthers words
      → gc_words (tokens (codes " []") (reply words wcs rest)) l ≡ seeded wcs l
  gc_words-reply [] wcs rest l h =
      gc_words-first (name_of wcs) rest l (name_given wcs) (name-Clean wcs) (name-no_colon wcs)
      ∙ gc_words-others [] wcs rest l h
  gc_words-reply (word ∷ words) wcs rest l h =
      gc_words-first (text_of word) (words_text words (name_of wcs ++ (b' ' ∷ rest))) l
        (text_given word) h.0.clean h.0.no_colon
      ∙ gc_words-others (word ∷ words) wcs rest l h

  answer-bracket : (rest : Bytes) (c : Core F) → (answer (codes "[GC:" ++ rest) c).link ≡ c.link
  unfolding answer str_eq starts_with
  answer-bracket rest c = refl

-- A `$G` reply, a line of at most 95 bytes without NUL that holds a coordinate system behind other
-- words, if any, and before any text: `on_line` notes that coordinate system, with all of its name,
-- as the last one that is known, and leaves the rest of the link as it is. (The other words begin
-- with another letter than 'G', or with 'G' and a number below 54 or above 59, and hold no blank,
-- bracket or colon.)
pub on_line-reply :
    (fl : Floats) (now : ℕ) (words : List Word) (wcs : Wcs) (rest : Bytes) (c : Core fl.Real)
    → AreOthers words
    → strncpy 95 (reply words wcs rest) ≡ reply words wcs rest
    → (on_line fl now (reply words wcs rest) c).link ≡ seeded wcs c.link
unfolding on_line parse_gc_wcs starts_with
on_line-reply fl now words wcs rest c others short =
    answer-bracket (words_text words (name_of wcs ++ (b' ' ∷ rest))) _
    ∙ ap (λ line. gc_words (tokens (codes " []") line) c.link) short
    ∙ gc_words-reply words wcs rest c.link others
