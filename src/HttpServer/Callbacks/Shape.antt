-- ===== src/HttpServer/Callbacks/Shape.antt =====
-- The connection while a request arrives.
use mathlib.Core.Path.{subst}
use pico2w_grbl_bridge.Base.{
  ℕ, ◌+◌, ◌-◌, ◌%◌, ◌^◌, ◌≤◌, ◌≡◌, refl, sym, ap, ap₂, ◌∙◌, true, false, Option, none, some, [],
  ◌++◌, arith, length, length-append, take, drop, take_all, drop-append, ltb, leb, if◌then◌else◌,
  Bytes, Bool-cases, inl, inr,
}
use pico2w_grbl_bridge.Base.Pieces.{take-append_le, take-append-drop}
use pico2w_grbl_bridge.HttpServer.Conn.{Conn, fresh}
use pico2w_grbl_bridge.HttpServer.Find.{case_find}
use pico2w_grbl_bridge.HttpServer.Find.Stable.{case_find-append, case_find-le}
use pico2w_grbl_bridge.HttpServer.Callbacks.{
  number_at, store, read_headers, take_headers, crlf_crlf, content_length_key, content_length_at,
}
use pico2w_grbl_bridge.HttpServer.Callbacks.Number.{EndsInside, number_at-append}

abbrev pub NumberInside : Bytes → Option ℕ → Type 0
NumberInside head none = Unit
NumberInside head (some i) = EndsInside (drop (i + 17) head)

-- A request: its headers end behind `k` bytes and their four, they announce `n` bytes of body, if
-- they have a Content-Length its number ends within them, and the body is all that follows.
pub record IsRequest (r : Bytes) (k n : ℕ) : Type 0 where
  pub header_ends : case_find r crlf_crlf ≡ some k
  pub length_is :
      content_length_at (take (k + 4) r) (case_find (take (k + 4) r) content_length_key) ≡ n
  pub number_inside : NumberInside (take (k + 4) r) (case_find (take (k + 4) r) content_length_key)
  pub whole : length r ≡ k + 4 + n
  pub small : length r ≤ 4095

-- What the header says does not change with the bytes behind it.
content_length-append :
    (head t : Bytes) (o : Option ℕ)
    → ((i : ℕ) → o ≡ some i → i + 17 ≤ length head)
    → NumberInside head o
    → content_length_at (head ++ t) o ≡ content_length_at head o
content_length-append head t none fits h = refl
content_length-append head t (some i) fits h =
    ap number_at (drop-append (i + 17) head t (fits i refl))
    ∙ number_at-append (drop (i + 17) head) t h

-- Bytes for which there is room are stored.
store_room :
    (p : Bytes) (c : Conn)
    → c.oversized ≡ false
    → length c.req + length p ≤ 4095
    → store p c ≡ record c { req = c.req ++ p }
unfolding store
store_room p c o h =
    let space : (4095 + 2 ^ 32 - length c.req) % 2 ^ 32 ≡ 4095 - length c.req = omega arith in
    ap₂ (λ q b. record c { req = c.req ++ q; oversized = b })
      (rw space (
        take_all
          ((if ltb (length p) (4095 - length c.req) then length p else 4095 - length c.req)
            % 2 ^ 16)
          p (ground arith)))
      (rw (space, o) (ground arith))

module _ (r : Bytes) (k n now : ℕ) (q : IsRequest r k n) where
  -- the connection when the bytes of `s` have arrived
  abbrev pub waiting : Bytes → Conn
  waiting s = record (fresh now) { req = s }

  abbrev pub ready : Bytes → Conn
  ready s = record (fresh now) {
    req = s;
    headers_complete = true;
    header_end = k + 4;
    content_length = some n;
  }

  abbrev pub shape : Bytes → Conn
  shape s = if leb (k + 4) (length s) then ready s else waiting s

  pub shape_nil : shape [] ≡ fresh now
  shape_nil = ground arith

  -- The headers of what has arrived, once they are complete.
  header_of : (s t : Bytes) → s ++ t ≡ r → k + 4 ≤ length s → take (k + 4) s ≡ take (k + 4) r
  header_of s t e h = sym (take-append_le (k + 4) s t h) ∙ ap (take (k + 4)) e

  length_of :
      (s t : Bytes)
      → s ++ t ≡ r
      → k + 4 ≤ length s
      → content_length_at s (case_find (take (k + 4) s) content_length_key) ≡ n
  length_of s t e h =
      let head : Bytes = take (k + 4) s in
      let same : head ≡ take (k + 4) r = header_of s t e h in
      ap (λ u. content_length_at u (case_find head content_length_key))
        (sym (take-append-drop (k + 4) s))
      ∙ content_length-append head (drop (k + 4) s) (case_find head content_length_key)
          (λ i. case_find-le head content_length_key i)
          (subst (λ u. NumberInside u (case_find u content_length_key)) (sym same) q.number_inside)
      ∙ ap (λ u. content_length_at u (case_find u content_length_key)) same
      ∙ q.length_is

  store-shape :
      (s p t : Bytes) → (s ++ p) ++ t ≡ r → store p (shape s) ≡ record (shape s) { req = s ++ p }
  store-shape s p t e =
      let room : length s + length p ≤ 4095 =
        omega (arith, ap length e, length-append (s ++ p) t, length-append s p, q.small) in
      elim (Bool-cases (leb (k + 4) (length s))) [
        | inl whole ↦ rw whole (store_room p _ refl room)
        | inr part ↦ rw part (store_room p _ refl room)
      ]

  headers_read :
      (s t : Bytes) → s ++ t ≡ r → k + 4 ≤ length s → take_headers (some k) (waiting s) ≡ ready s
  headers_read s t e h =
      let size = length_of s t e h in
      let fits : ltb 4095 (k + 4 + n) ≡ false = ground (arith, q.whole, q.small) in
      ap₂
        (λ m b. record (fresh now) {
          req = s;
          headers_complete = true;
          header_end = k + 4;
          content_length = some m;
          oversized = b;
        })
        size (rw size fits)

  read_waiting : (s t : Bytes) → s ++ t ≡ r → read_headers (waiting s) ≡ shape s
  unfolding read_headers
  read_waiting s t e =
      let found = case_find-append s t crlf_crlf k (rw e q.header_ends) in
      elim (Bool-cases (leb (k + 4) (length s))) [
        | inl whole ↦ rw whole (
            ap (λ o. take_headers o (waiting s)) (rw whole at found)
            ∙ headers_read s t e (ground arith))
        | inr part ↦ rw part (ap (λ o. take_headers o (waiting s)) (rw part at found))
      ]

  pub read_shape :
      (s p t : Bytes)
      → (s ++ p) ++ t ≡ r
      → read_headers (record (shape s) { req = s ++ p }) ≡ shape (s ++ p)
  unfolding read_headers
  read_shape s p t e = elim (Bool-cases (leb (k + 4) (length s))) [
    | inl whole ↦
        let more : leb (k + 4) (length (s ++ p)) ≡ true = ground (arith, length-append s p) in
        rw (whole, more) refl
    | inr part ↦ rw part (read_waiting (s ++ p) t e)
  ]

  pub arrive :
      (s p t : Bytes) → (s ++ p) ++ t ≡ r → read_headers (store p (shape s)) ≡ shape (s ++ p)
  arrive s p t e = ap read_headers (store-shape s p t e) ∙ read_shape s p t e
