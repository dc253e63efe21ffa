-- ===== src/HttpServer/Request/Line.antt =====
-- What is read of a request line.
use pico2w_grbl_bridge.Base.{
  false, ◌==◌, ℕ, zero, suc, none, some, Option, [], ◌∷◌, refl, ap, ap₂, ◌∙◌, arith, take, take_all,
}
use pico2w_grbl_bridge.Base.{take, suc, ◌≡◌, ◌≤◌, arith, length, ◌++◌, ◌≢◌}
use pico2w_grbl_bridge.CString.{c_str, split_at, keep_before}
use pico2w_grbl_bridge.CString.Laws.{IsText, c_str_of_IsText}
use pico2w_grbl_bridge.HttpServer.Request.{
  [], ◌∷◌, some, Bytes, ℕ, Option, word, skip_word, skip_spaces, before, request_line,
}

-- no blank, no NUL
abbrev pub IsWord : Bytes → Type 0
IsWord [] = Unit
IsWord (c ∷ s) = (c ≢ 32) × (c ≢ 0) × IsWord s

-- and no `?`
abbrev pub IsPath : Bytes → Type 0
IsPath [] = Unit
IsPath (c ∷ s) = (c ≢ 32) × (c ≢ 0) × (c ≢ 63) × IsPath s

-- the part of the target behind the path
abbrev pub query_text : Option Bytes → Bytes
query_text none = []
query_text (some query) = 63 ∷ query

abbrev pub IsQuery : Option Bytes → Type 0
IsQuery none = Unit
IsQuery (some query) = IsWord query

word-take : (n : ℕ) (s t : Bytes) → IsWord s → (word n (s ++ 32 ∷ t)).0 ≡ take n s
unfolding word
word-take zero s t h = refl
word-take (suc n) [] t h = refl
word-take (suc n) (c ∷ s) t h = ground (arith, word-take n s t h.2)

word_rest :
    (n : ℕ) (s t : Bytes) → IsWord s → length s ≤ n → skip_word (word n (s ++ 32 ∷ t)).1 ≡ 32 ∷ t
unfolding word skip_word
word_rest zero [] t h fits = refl
word_rest zero (c ∷ s) t h fits = absurd (omega arith)
word_rest (suc n) [] t h fits = refl
word_rest (suc n) (c ∷ s) t h fits = ground (arith, word_rest n s t h.2)

path-IsWord : (s : Bytes) → IsPath s → IsWord s
path-IsWord [] h = tt
path-IsWord (c ∷ s) h = (h.0, h.1, path-IsWord s h.3)

IsWord-append : (s t : Bytes) → IsWord s → IsWord t → IsWord (s ++ t)
IsWord-append [] t hs ht = ht
IsWord-append (c ∷ s) t hs ht = (hs.0, hs.1, IsWord-append s t hs.2 ht)

query-IsWord : (q : Option Bytes) → IsQuery q → IsWord (query_text q)
query-IsWord none h = tt
query-IsWord (some query) h = (omega arith, omega arith, h)

before-keep_before :
    (c : ℕ) (cut : Bytes) (o : Option (Bytes × Bytes))
    → before (c ∷ cut) (keep_before c o) ≡ c ∷ before cut o
before-keep_before c cut none = refl
before-keep_before c cut (some split) = refl

-- A path that fits is cut off at the query, also where the buffer ends within that.
path_before :
    (n : ℕ) (path : Bytes) (q : Option Bytes)
    → IsPath path
    → length path ≤ n
    → (let cut = c_str (take n (path ++ query_text q)) in before cut (split_at 63 cut)) ≡ path
unfolding c_str split_at
path_before zero [] q hp fits = refl
path_before zero (c ∷ path) q hp fits = absurd (omega arith)
path_before (suc n) [] none hp fits = refl
path_before (suc n) [] (some query) hp fits = refl
path_before (suc n) (c ∷ path) q hp fits =
    let text : (c == 0) ≡ false = ground (arith, hp.1) in
    let kept : (c == 63) ≡ false = ground (arith, hp.2) in
    let cut : Bytes = c_str (take n (path ++ query_text q)) in
    rw (text, kept)
      (before-keep_before c cut (split_at 63 cut)
        ∙ ap (λ u. c ∷ u) (path_before n path q hp.3 (omega arith)))

skip_spaces_word : (s t : Bytes) → IsWord s → s ≢ [] → skip_spaces (32 ∷ (s ++ t)) ≡ s ++ t
unfolding skip_spaces
skip_spaces_word [] t h given = absurd (given refl)
skip_spaces_word (c ∷ s) t h given = ground (arith, h.0)

word-IsText : (s : Bytes) → IsWord s → IsText s
word-IsText [] h = tt
word-IsText (c ∷ s) h = (h.1, word-IsText s h.2)

-- Of a request line with a method of at most seven bytes and a path of at most 159, the method and
-- the path are read back, whatever the query and whatever follows. (No blank and no NUL in the
-- method, the path and the query, no `?` in the path, and the target is not empty.)
pub request_line_lem :
    (method path rest : Bytes) (q : Option Bytes)
    → IsWord method
    → length method ≤ 7
    → IsPath path
    → length path ≤ 159
    → IsQuery q
    → path ++ query_text q ≢ []
    → request_line (method ++ 32 ∷ (path ++ query_text q ++ 32 ∷ rest)) ≡ (method, path)
unfolding request_line
request_line_lem method path rest q hm short hp fits hq given =
    let target : Bytes = path ++ query_text q in
    let hw : IsWord target =
      IsWord-append path (query_text q) (path-IsWord path hp) (query-IsWord q hq) in
    let tail : Bytes = target ++ 32 ∷ rest in
    let named : c_str (word 7 (method ++ 32 ∷ tail)).0 ≡ method =
      ap c_str (word-take 7 method tail hm ∙ take_all 7 method short)
      ∙ c_str_of_IsText method (word-IsText method hm) in
    let found : word 159 (skip_spaces (skip_word (word 7 (method ++ 32 ∷ tail)).1))
        ≡ word 159 tail =
      ap (λ u. word 159 (skip_spaces u)) (word_rest 7 method tail hm short)
      ∙ ap (word 159) (skip_spaces_word target (32 ∷ rest) hw given) in
    let cut : (word 159 (skip_spaces (skip_word (word 7 (method ++ 32 ∷ tail)).1))).0
        ≡ take 159 target =
      ap (λ p. p.0) found ∙ word-take 159 target rest hw in
    ap₂ (λ m p. (m, p)) named
      (ap (λ w. before (c_str w) (split_at 63 (c_str w))) cut ∙ path_before 159 path q hp fits)
