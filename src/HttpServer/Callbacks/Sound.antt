-- ===== src/HttpServer/Callbacks/Sound.antt =====
-- What holds of a connection over its life.
use pico2w_grbl_bridge.Base.{
  leb, ◌&&◌, codes, Bool, not, ltb, if◌then◌else◌, ℕ, ◌+◌, ◌≤◌, true, false, Option, none, some,
  arith, length, Bytes,
}
use pico2w_grbl_bridge.Api.Dispatch.Fits.{Fits, api_dispatch-Fits}
use pico2w_grbl_bridge.HttpServer.Callbacks.Run.{Event, recv, sent, polled, failed, step}
use pico2w_grbl_bridge.HttpServer.Send.{begin_response, send_more}
use pico2w_grbl_bridge.HttpServer.Conn.{Conn, fresh}
use pico2w_grbl_bridge.HttpServer.Send.Progress.{send_more-Sends}
use pico2w_grbl_bridge.HttpServer.Callbacks.{
  After, closed, sent_on, still_open, api_dispatch, has_body, build_and_send, on_poll, Env, on_recv,
  answer, on_sent, Response, Floats, Site, begin_response, store, read_headers,
}
use pico2w_grbl_bridge.HttpServer.Request.{Request, request_of}
use pico2w_grbl_bridge.HttpServer.Callbacks.Run.{Call, run}
use pico2w_grbl_bridge.HttpServer.Callbacks.Bounds.{
  IsSound, store-IsSound, read_headers-IsSound, Sends-IsSound, begin_response-IsSound,
  fresh-IsSound,
}
use pico2w_grbl_bridge.Base.{List, [], ◌∷◌}

abbrev pub too_large : Response
too_large = record {
  status = 413;
  status_text = codes "Payload Too Large";
  content_type = codes "text/plain";
  body = codes "request too large";
  body_len = 17;
}

too_large-Fits : Fits too_large
too_large-Fits = omega arith

-- A connection that is not freed is sound.
abbrev pub Sound : Option Conn → Type 0
Sound none = Unit
Sound (some c) = IsSound c

choose-Sound :
    {F : Type 0} (b : Bool) (a d : After F)
    → Sound a.conn
    → Sound d.conn
    → Sound (if b then a else d).conn
choose-Sound true a d h k = h
choose-Sound false a d h k = k

abbrev pub NameFits : {F : Type 0} → Site F → Type 0
NameFits site = length site.wifi.ap_ssid ≤ 31

module _ (fl : Floats) (index_html : Bytes) where
  open fl use {Real}

  answer-IsSound :
      (e : Env) (c : Conn) (site : Site Real)
      → NameFits site
      → IsSound c
      → Sound (answer fl index_html e c site).conn
  unfolding answer build_and_send
  answer-IsSound e c site named s =
      let refused = begin_response-IsSound e.tcp too_large c too_large-Fits s in
      let r : Request = request_of c in
      let (resp, site') = api_dispatch fl index_html r.method r.path r.body 7168 e.now site in
      let answered =
        begin_response-IsSound e.tcp resp c
          (api_dispatch-Fits fl index_html r.method r.path r.body e.now site named) s in
      let complete : Bool = not c.response_ready && (c.headers_complete && has_body c) in
      let others : After Real =
        if complete then build_and_send fl index_html e c site else still_open c site in
      choose-Sound (not c.response_ready && c.oversized)
        (sent_on
          (begin_response e.tcp 413 (codes "Payload Too Large") (codes "text/plain")
            (codes "request too large") 17 c)
          site)
        others refused
        (choose-Sound complete (build_and_send fl index_html e c site) (still_open c site) answered
          s)

  on_recv-IsSound :
      (e : Env) (p : Option Bytes) (c : Conn) (site : Site Real)
      → NameFits site
      → IsSound c
      → Sound (on_recv fl index_html e p c site).conn
  unfolding on_recv
  on_recv-IsSound e none c site named s = tt
  on_recv-IsSound e (some p) c site named s =
      answer-IsSound e (read_headers (store p c)) site named
        (read_headers-IsSound (store p c) (store-IsSound p c s))

  step-Sound :
      (event : Event) (e : Env) (c : Conn) (site : Site Real)
      → NameFits site
      → IsSound c
      → Sound (step fl index_html event e c site).conn
  unfolding on_sent on_poll
  step-Sound (recv p) e c site named s = on_recv-IsSound e p c site named s
  step-Sound sent e c site named s =
      let more =
        Sends-IsSound c (send_more e.tcp c) s s.answer_whole
          (send_more-Sends e.tcp c s.answer_whole) in
      choose-Sound (leb (c.head_len + c.body_len) c.sent_len) (closed e site)
        (sent_on (send_more e.tcp c) site) tt more
  step-Sound polled e c site named s =
      let more =
        Sends-IsSound c (send_more e.tcp c) s s.answer_whole
          (send_more-Sends e.tcp c s.answer_whole) in
      let waits : After Real =
        if ltb (c.created + 10000000) e.now then closed e site else still_open c site in
      choose-Sound c.response_ready (sent_on (send_more e.tcp c) site) waits more
        (choose-Sound (ltb (c.created + 10000000) e.now) (closed e site) (still_open c site) tt s)
  step-Sound failed e c site named s = tt

  abbrev pub NamesFit : List (Call Real) → Type 0
  NamesFit [] = Unit
  NamesFit (call ∷ calls) = NameFits call.site × NamesFit calls

  run_from-Sound :
      (calls : List (Call Real)) (o : Option Conn)
      → NamesFit calls
      → Sound o
      → Sound (run fl index_html calls o).0
  unfolding run
  run_from-Sound [] o named h = h
  run_from-Sound (call ∷ calls) none named h = tt
  run_from-Sound (call ∷ calls) (some c) named h =
      run_from-Sound calls (step fl index_html call.event call.env c call.site).conn named.1
        (step-Sound call.event call.env c call.site named.0 h)

  -- From `on_accept` on, over any callbacks, a connection that is not freed keeps its request
  -- within the 4095 bytes that leave room for the NUL, its headers' end within the request, the
  -- body that was announced within the buffer unless it is marked as oversized, and a response
  -- whose head and body are as long as their lengths say, of which no more than all is sent. (The
  -- names of the access point are of at most 31 bytes.)
  pub run-Sound :
      (calls : List (Call Real)) (now : ℕ)
      → NamesFit calls
      → Sound (run fl index_html calls (some (fresh now))).0
  run-Sound calls now named = run_from-Sound calls (some (fresh now)) named (fresh-IsSound now)
