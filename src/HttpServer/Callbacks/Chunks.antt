-- ===== src/HttpServer/Callbacks/Chunks.antt =====
-- A request that arrives in pieces.
use pico2w_grbl_bridge.Base.{
  append_assoc, map, append-nil, ◌<◌, ◌≢◌, ◌∷◌, List, ℕ, ◌+◌, ◌≡◌, refl, sym, ap, ◌∙◌, Option, some,
  [], ◌++◌, arith, length, length-append, leb, Bytes, Bool-cases, inl, inr,
}
use pico2w_grbl_bridge.HttpServer.Conn.{Conn, fresh}
use pico2w_grbl_bridge.Floats.{Floats}
use pico2w_grbl_bridge.Api.Dispatch.{Site}
use pico2w_grbl_bridge.HttpServer.Callbacks.Run.{Call, Entry, recv, run}
use pico2w_grbl_bridge.HttpServer.Callbacks.{
  After, still_open, has_body, on_recv, answer, Env, store, read_headers,
}
use pico2w_grbl_bridge.HttpServer.Callbacks.Shape.{IsRequest, shape, shape_nil, arrive}

-- Bytes that arrive: what lwIP answers then, and what the handlers find.
pub record Arrival (F : Type 0) : Type 0 where
  pub piece : Bytes
  pub env : Env
  pub site : Site F

module _ {F : Type 0} where
  abbrev pub arrives : Arrival F → Call F
  arrives a = record { env = a.env; event = recv (some a.piece); site = a.site }

  -- Nothing is written, and what the handlers keep stays as it is.
  abbrev pub quiet : Arrival F → Entry F
  quiet a = record { before = a.site; after = a.site; written = [] }

  abbrev pub all_bytes : List (Arrival F) → Bytes
  all_bytes [] = []
  all_bytes (a ∷ later) = a.piece ++ all_bytes later

module _ (fl : Floats) (index_html : Bytes) where
  open fl use {Real}

  -- One callback with all bytes, and the entries before it.
  abbrev pub at_once :
      List (Entry Real) → Env → Bytes → Conn → Site Real → Option Conn × List (Entry Real)
  at_once log e r c site =
      let a = on_recv fl index_html e (some r) c site in
      (a.conn, log ++ record { before = site; after = a.site; written = a.written } ∷ [])

  module _ (r : Bytes) (k n now : ℕ) (q : IsRequest r k n) where
    part_waits :
        (e : Env) (s : Bytes) (site : Site Real)
        → length s < length r
        → answer fl index_html e (shape r k n now q s) site ≡ still_open (shape r k n now q s) site
    unfolding answer has_body
    part_waits e s site h = elim (Bool-cases (leb (k + 4) (length s))) [
      | inl whole ↦ rw whole (ground (arith, q.whole))
      | inr part ↦ rw part refl
    ]

    part_arrives :
        (e : Env) (s p t : Bytes) (site : Site Real)
        → (s ++ p) ++ t ≡ r
        → 0 < length t
        → on_recv fl index_html e (some p) (shape r k n now q s) site
          ≡ still_open (shape r k n now q (s ++ p)) site
    unfolding on_recv
    part_arrives e s p t site h given =
        ap (λ c. answer fl index_html e c site) (arrive r k n now q s p t h)
        ∙ part_waits e (s ++ p) site (omega (arith, ap length h, length-append (s ++ p) t))

    last_arrives :
        (e : Env) (s p : Bytes) (site : Site Real)
        → s ++ p ≡ r
        → on_recv fl index_html e (some p) (shape r k n now q s) site
          ≡ on_recv fl index_html e (some r) (fresh now) site
    unfolding on_recv
    last_arrives e s p site h =
        let whole : (s ++ p) ++ [] ≡ r = append-nil (s ++ p) ∙ h in
        ap (λ c. answer fl index_html e c site)
          (arrive r k n now q s p [] whole
            ∙ ap (shape r k n now q) h
            ∙ sym (arrive r k n now q [] r [] (append-nil r))
            ∙ ap (λ c. read_headers (store r c)) (shape_nil r k n now q))

    -- what is run behind the first piece
    abbrev after_quiet :
        List (Arrival Real)
        → Arrival Real
        → Arrival Real
        → After Real
        → Option Conn × List (Entry Real)
    after_quiet front last a x =
        let (o, log) = run fl index_html (map arrives front ++ arrives last ∷ []) x.conn in
        (o, record { before = a.site; after = x.site; written = x.written } ∷ log)

    pieces_from :
        (s : Bytes) (front : List (Arrival Real)) (last : Arrival Real)
        → s ++ all_bytes front ++ last.piece ≡ r
        → 0 < length last.piece
        → run fl index_html (map arrives front ++ arrives last ∷ []) (some (shape r k n now q s))
          ≡ at_once (map quiet front) last.env r (fresh now) last.site
    unfolding run
    pieces_from s [] last h given =
        ap (λ a. (a.conn, record { before = last.site; after = a.site; written = a.written } ∷ []))
          (last_arrives last.env s last.piece last.site
            (ap (λ u. u ++ last.piece) (sym (append-nil s)) ∙ h))
    pieces_from s (a ∷ front) last h given =
        let rest : (s ++ a.piece) ++ all_bytes front ++ last.piece ≡ r =
          ap (λ u. u ++ last.piece) (append_assoc s a.piece (all_bytes front)) ∙ h in
        let more : 0 < length (all_bytes front ++ last.piece) =
          omega (arith, length-append (all_bytes front) last.piece, given) in
        let waits =
          part_arrives a.env s a.piece (all_bytes front ++ last.piece) a.site
            (sym (append_assoc (s ++ a.piece) (all_bytes front) last.piece) ∙ rest) more in
        ap (after_quiet front last a) waits
        ∙ ap (λ u. (u.0, quiet a ∷ u.1)) (pieces_from (s ++ a.piece) front last rest given)

    -- A request that fits the buffer, with an end of its headers and all of its body, is answered
    -- the same however it is cut into pieces: lwIP's callbacks with the pieces, the last of them not
    -- empty, leave the connection as one callback with all bytes does where the last piece arrives.
    -- The last callback writes what that one writes and changes what that one changes, and the ones
    -- before write and change nothing. (If there is a Content-Length, its number ends within the
    -- headers.)
    pub recv_in_pieces :
        (front : List (Arrival Real)) (last : Arrival Real)
        → all_bytes front ++ last.piece ≡ r
        → last.piece ≢ []
        → run fl index_html (map arrives front ++ arrives last ∷ []) (some (fresh now))
          ≡ at_once (map quiet front) last.env r (fresh now) last.site
    recv_in_pieces front last h given =
        ap (λ c. run fl index_html (map arrives front ++ arrives last ∷ []) (some c))
          (sym (shape_nil r k n now q))
        ∙ pieces_from [] front last h (ground (arith, given))
