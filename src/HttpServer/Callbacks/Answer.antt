-- ===== src/HttpServer/Callbacks/Answer.antt =====
-- What a request is answered with.
use pico2w_grbl_bridge.Base.{
  if◌then◌else◌, ap₂, sym, ◌≢◌, ℕ, ◌+◌, ◌≤◌, ◌≡◌, refl, ap, ◌∙◌, true, false, Option, some, [], ◌∷◌,
  ◌++◌, append-nil, arith, length, length-drop, take, take_all, drop, leb, Bytes,
}
use pico2w_grbl_bridge.Floats.{Floats}
use pico2w_grbl_bridge.Api.Dispatch.{Site, api_dispatch}
use pico2w_grbl_bridge.HttpServer.Request.{request_line}
use pico2w_grbl_bridge.HttpServer.Callbacks.Shape.{waiting}
use pico2w_grbl_bridge.HttpServer.Conn.{Conn, fresh}
use pico2w_grbl_bridge.HttpServer.Send.{begin_response}
use pico2w_grbl_bridge.HttpServer.Request.{Request, request_of}
use pico2w_grbl_bridge.HttpServer.Request.Line.{
  IsWord, IsPath, IsQuery, query_text, request_line_lem,
}
use pico2w_grbl_bridge.HttpServer.Callbacks.{
  Env, After, sent_on, answer, build_and_send, has_body, on_recv, read_headers, store,
}
use pico2w_grbl_bridge.HttpServer.Callbacks.Shape.{IsRequest, ready, shape_nil, arrive}

-- A request line: method, target and what follows, within the first `k` bytes and their four.
pub record HasLine (r : Bytes) (k : ℕ) (method path : Bytes) (query : Option Bytes) : Type 0 where
  pub rest : Bytes
  pub line_is : take (k + 4) r ≡ method ++ 32 ∷ (path ++ query_text query ++ 32 ∷ rest)
  pub method_is : IsWord method
  pub method_fits : length method ≤ 7
  pub path_is : IsPath path
  pub path_fits : length path ≤ 159
  pub path_given : path ≢ []
  pub query_is : IsQuery query

module _ (fl : Floats) (index_html : Bytes) where
  open fl use {Real}

  -- The response of `api_dispatch` is begun on the connection.
  abbrev pub dispatched : Env → Conn → Site Real → Request → After Real
  dispatched e c site q =
      let (resp, site') = api_dispatch fl index_html q.method q.path q.body 7168 e.now site in
      sent_on
        (begin_response e.tcp resp.status resp.status_text resp.content_type resp.body resp.body_len
          c)
        site'

  complete_answered :
      (e : Env) (c : Conn) (site : Site Real)
      → c.response_ready ≡ false
      → c.oversized ≡ false
      → c.headers_complete ≡ true
      → has_body c ≡ true
      → answer fl index_html e c site ≡ dispatched e c site (request_of c)
  unfolding answer build_and_send
  complete_answered e c site waiting small whole body = rw (waiting, small, whole, body) refl

  module _ (r : Bytes) (k n now : ℕ) (q : IsRequest r k n) where
    request_of-ready :
        (method path : Bytes) (query : Option Bytes)
        → HasLine r k method path query
        → request_of (ready r k n now q r)
          ≡ record { method = method; path = path; body = drop (k + 4) r }
    unfolding request_of
    request_of-ready method path query l =
        let given : path ++ query_text query ≢ [] = ground (arith, l.path_given) in
        let line =
          ap request_line l.line_is
          ∙ request_line_lem method path l.rest query l.method_is l.method_fits l.path_is
              l.path_fits l.query_is given in
        let behind : length (drop (k + 4) r) ≤ n = omega (arith, length-drop (k + 4) r, q.whole) in
        ap₂ (λ mp b. record { method = mp.0; path = mp.1; body = b }) line
          (take_all n (drop (k + 4) r) behind)

    ready_body : has_body (ready r k n now q r) ≡ true
    unfolding has_body
    ready_body = ground (arith, q.whole)

    -- A request that fits the buffer and arrives at once is answered with what `api_dispatch` says
    -- to the method and the path of its request line and to the bytes behind its headers. (All
    -- of its body is there and nothing else; if there is a Content-Length, its number ends within the
    -- headers; the method is of at most seven bytes, the path is not empty, of at most 159 bytes and
    -- without `?`, and none of them has a blank or a NUL.)
    pub request_answered :
        (method path : Bytes) (query : Option Bytes)
        → HasLine r k method path query
        → (e : Env) (site : Site Real)
        → on_recv fl index_html e (some r) (fresh now) site
          ≡ dispatched e
              (ready r k n now q r)
              site
              (record { method = method; path = path; body = drop (k + 4) r })
    unfolding on_recv
    request_answered method path query l e site =
        let all : leb (k + 4) (length r) ≡ true = ground (arith, q.whole) in
        let c : Conn = ready r k n now q r in
        ap (λ d. answer fl index_html e d site)
          (ap (λ d. read_headers (store r d)) (sym (shape_nil r k n now q))
            ∙ arrive r k n now q [] r [] (append-nil r)
            ∙ ap (λ b. if b then c else waiting r k n now q r) all)
        ∙ complete_answered e c site refl refl refl ready_body
        ∙ ap (dispatched e c site) (request_of-ready method path query l)
