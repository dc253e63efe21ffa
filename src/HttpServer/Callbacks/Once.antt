-- ===== src/HttpServer/Callbacks/Once.antt =====
-- One connection, one request.
use pico2w_grbl_bridge.Base.{
  codes, ℕ, zero, suc, ◌+◌, ◌≡◌, refl, ◌∙◌, ◌⊎◌, inl, inr, Bool, true, false, not, ◌&&◌, Option,
  none, some, List, [], ◌∷◌, arith, Bytes, if◌then◌else◌, ◌%◌, ◌^◌,
}
use pico2w_grbl_bridge.Floats.{Floats}
use pico2w_grbl_bridge.Api.Dispatch.{Site, api_dispatch}
use pico2w_grbl_bridge.HttpServer.Request.{Request, request_of}
use pico2w_grbl_bridge.HttpServer.Conn.{Conn}
use pico2w_grbl_bridge.HttpServer.Send.{
  Lwip, send_loop, send_more, begin_response, prepare, chunk_of,
}
use pico2w_grbl_bridge.HttpServer.Callbacks.{
  still_open, sent_on, has_body, After, Env, store, read_headers, take_headers, answer,
  build_and_send, on_recv, on_sent, on_poll,
}
use pico2w_grbl_bridge.HttpServer.Callbacks.Run.{
  Event, recv, sent, polled, failed, Call, Entry, step, run,
}

send_loop-response_ready :
    (fuel round : ℕ) (tcp : Lwip) (c : Conn)
    → (send_loop fuel round tcp c).conn.response_ready ≡ c.response_ready
unfolding send_loop
send_loop-response_ready zero round tcp c = refl
send_loop-response_ready (suc fuel) round tcp c = ground (
  arith,
  send_loop-response_ready fuel (round + 1) tcp
      (record c { sent_len = c.sent_len + chunk_of (tcp.sndbuf round % 2 ^ 16) c }),
)

send_more-response_ready :
    (tcp : Lwip) (c : Conn) → (send_more tcp c).conn.response_ready ≡ c.response_ready
unfolding send_more
send_more-response_ready tcp c = send_loop-response_ready _ 0 tcp c

begin_response-response_ready :
    (tcp : Lwip) (status : ℕ) (status_text content_type body : Bytes) (body_len : ℕ) (c : Conn)
    → (begin_response tcp status status_text content_type body body_len c).conn.response_ready
      ≡ true
unfolding begin_response prepare
begin_response-response_ready tcp status status_text content_type body body_len c =
    send_more-response_ready tcp (prepare status status_text content_type body body_len c)

store-response_ready : (p : Bytes) (c : Conn) → (store p c).response_ready ≡ c.response_ready
unfolding store
store-response_ready p c = refl

take_headers-response_ready :
    (o : Option ℕ) (c : Conn) → (take_headers o c).response_ready ≡ c.response_ready
take_headers-response_ready none c = refl
take_headers-response_ready (some k) c = refl

read_headers-response_ready : (c : Conn) → (read_headers c).response_ready ≡ c.response_ready
unfolding read_headers
read_headers-response_ready c = ground (arith, λ (o : Option ℕ). take_headers-response_ready o c)

-- The connection is freed, or has its response.
abbrev Answered : Option Conn → Type 0
Answered none = Unit
Answered (some c) = c.response_ready ≡ true

-- Once the response is there: nothing is changed, and the response stays.
abbrev Quiet : {F : Type 0} → Site F → After F → Type 0
Quiet site a = (a.site ≡ site) × Answered a.conn

-- Before: nothing is changed, or from now on the response is there.
abbrev Careful : {F : Type 0} → Site F → After F → Type 0
Careful site a = (a.site ≡ site) ⊎ Answered a.conn

choose-Careful :
    {F : Type 0} (site : Site F) (a d : After F) (b : Bool)
    → Careful site a
    → Careful site d
    → Careful site (if b then a else d)
choose-Careful site a d true h k = h
choose-Careful site a d false h k = k

module _ (fl : Floats) (index_html : Bytes) where
  open fl use {Real}

  answer-Quiet :
      (e : Env) (c : Conn) (site : Site Real)
      → c.response_ready ≡ true
      → Quiet site (answer fl index_html e c site)
  unfolding answer
  answer-Quiet e c site ready = ground arith

  answer-Careful :
      (e : Env) (c : Conn) (site : Site Real) → Careful site (answer fl index_html e c site)
  unfolding answer build_and_send
  answer-Careful e c site =
      let complete : Bool = not c.response_ready && (c.headers_complete && has_body c) in
      let r : Request = request_of c in
      let (resp, site') = api_dispatch fl index_html r.method r.path r.body 7168 e.now site in
      let others : After Real =
        if complete then build_and_send fl index_html e c site else still_open c site in
      choose-Careful site
        (sent_on
          (begin_response e.tcp 413 (codes "Payload Too Large") (codes "text/plain")
            (codes "request too large") 17 c)
          site)
        others (not c.response_ready && c.oversized) (inl refl)
        (choose-Careful site (build_and_send fl index_html e c site) (still_open c site) complete
          (inr (
            begin_response-response_ready e.tcp resp.status resp.status_text resp.content_type
              resp.body resp.body_len c))
          (inl refl))

  step-Quiet :
      (event : Event) (e : Env) (c : Conn) (site : Site Real)
      → c.response_ready ≡ true
      → Quiet site (step fl index_html event e c site)
  unfolding on_recv on_sent on_poll answer
  step-Quiet (recv none) e c site ready = (refl, tt)
  step-Quiet (recv (some p)) e c site ready =
      answer-Quiet e (read_headers (store p c)) site
        (read_headers-response_ready (store p c) ∙ store-response_ready p c ∙ ready)
  step-Quiet sent e c site ready = ground (arith, send_more-response_ready e.tcp c)
  step-Quiet polled e c site ready = ground (arith, send_more-response_ready e.tcp c)
  step-Quiet failed e c site ready = (refl, tt)

  step-Careful :
      (event : Event) (e : Env) (c : Conn) (site : Site Real)
      → Careful site (step fl index_html event e c site)
  unfolding on_recv on_sent on_poll answer build_and_send
  step-Careful (recv none) e c site = inl refl
  step-Careful (recv (some p)) e c site = answer-Careful e (read_headers (store p c)) site
  step-Careful sent e c site = ground arith
  step-Careful polled e c site = ground arith
  step-Careful failed e c site = inl refl

  -- No callback of the log changed anything.
  abbrev pub NoneChanged : List (Entry Real) → Type 0
  NoneChanged [] = Unit
  NoneChanged (x ∷ log) = (x.after ≡ x.before) × NoneChanged log

  -- At most one callback of the log changed something.
  abbrev pub AtMostOne : List (Entry Real) → Type 0
  AtMostOne [] = Unit
  AtMostOne (x ∷ log) = ((x.after ≡ x.before) × AtMostOne log) ⊎ NoneChanged log

  run-NoneChanged :
      (calls : List (Call Real)) (o : Option Conn)
      → Answered o
      → NoneChanged (run fl index_html calls o).1
  unfolding run
  run-NoneChanged [] o h = tt
  run-NoneChanged (call ∷ calls) none h = tt
  run-NoneChanged (call ∷ calls) (some c) h =
      let q = step-Quiet call.event call.env c call.site h in
      (q.0, run-NoneChanged calls (step fl index_html call.event call.env c call.site).conn q.1)

  -- Over the life of a connection, whatever is received in whatever pieces and whatever else
  -- happens, at most one callback changes the shared state or the pending WiFi update.
  pub run-AtMostOne :
      (calls : List (Call Real)) (o : Option Conn) → AtMostOne (run fl index_html calls o).1
  unfolding run
  run-AtMostOne [] o = tt
  run-AtMostOne (call ∷ calls) none = tt
  run-AtMostOne (call ∷ calls) (some c) = elim (step-Careful call.event call.env c call.site) [
    | inl same ↦
        inl (same, run-AtMostOne calls (step fl index_html call.event call.env c call.site).conn)
    | inr ready ↦
        inr (run-NoneChanged calls (step fl index_html call.event call.env c call.site).conn ready)
  ]
