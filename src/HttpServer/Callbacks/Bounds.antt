-- ===== src/HttpServer/Callbacks/Bounds.antt =====
-- What holds of a connection at all times.
use mathlib.Core.Path.{subst}
use pico2w_grbl_bridge.Base.{
  Bool, not, take, min, ltb, if◌then◌else◌, ℕ, ◌+◌, ◌-◌, ◌%◌, ◌^◌, ◌≤◌, ◌≡◌, refl, sym, ap, ◌∙◌,
  true, false, Option, none, some, arith, length, length-append, length-take, Bytes,
}
use pico2w_grbl_bridge.Api.Dispatch.Fits.{Fits}
use pico2w_grbl_bridge.HttpServer.Send.{Lwip, begin_response, prepare, send_more}
use pico2w_grbl_bridge.HttpServer.Conn.{Conn, fresh}
use pico2w_grbl_bridge.HttpServer.Find.Stable.{case_find-le}
use pico2w_grbl_bridge.HttpServer.Send.{prepare, Sent}
use pico2w_grbl_bridge.HttpServer.Send.Progress.{send_more-Sends, IsWhole, Sends}
use pico2w_grbl_bridge.HttpServer.Send.Head.{prepare-IsWhole}
use pico2w_grbl_bridge.HttpServer.Send.Whole.{sent-IsWhole}
use pico2w_grbl_bridge.HttpServer.Callbacks.{
  Response, begin_response, case_find, store, read_headers, take_headers, crlf_crlf,
}
use pico2w_grbl_bridge.HttpServer.Request.{length_or_zero}

-- The request and its end lie in the buffer, and a response that is on its way is whole.
pub record IsSound (c : Conn) : Type 0 where
  pub req_in : length c.req ≤ 4095
  pub header_in : c.headers_complete ≡ true → c.header_end ≤ length c.req
  pub body_in :
      c.headers_complete ≡ true
      → c.oversized ≡ false
      → c.header_end + length_or_zero c.content_length ≤ 4095
  pub answer_whole : IsWhole c

pub fresh-IsSound : (now : ℕ) → IsSound (fresh now)
fresh-IsSound now = record {
  req_in = omega arith;
  header_in = λ h. cc;
  body_in = λ h k. cc;
  answer_whole = omega arith;
}

-- what is sent of a connection
abbrev response_of : Conn → Bytes × Bytes × ℕ × ℕ × ℕ
response_of c = (c.resp_head, c.resp_body, c.head_len, c.body_len, c.sent_len)

same_response : (c d : Conn) → IsWhole c → response_of c ≡ response_of d → IsWhole d
same_response c d w e = ground (arith, w)

pub store-IsSound : (p : Bytes) (c : Conn) → IsSound c → IsSound (store p c)
unfolding store
store-IsSound p c s = record {
  req_in = ground (arith, stored);
  header_in = λ h. omega (arith, s.header_in h, stored);
  body_in = λ h k. s.body_in h (ground arith);
  answer_whole = same_response c (store p c) s.answer_whole refl;
}
  where
    space : ℕ
    space = (4095 + 2 ^ 32 - length c.req) % 2 ^ 32

    stored :
        length (store p c).req
        ≡ length c.req
          + min ((if ltb (length p) space then length p else space) % 2 ^ 16) (length p)
    stored =
        length-append c.req (take ((if ltb (length p) space then length p else space) % 2 ^ 16) p)
        ∙ ap (λ k. length c.req + k)
            (length-take ((if ltb (length p) space then length p else space) % 2 ^ 16) p)

take_headers-IsSound :
    (o : Option ℕ) (c : Conn)
    → ((k : ℕ) → o ≡ some k → k + 4 ≤ length c.req)
    → IsSound c
    → IsSound (take_headers o c)
take_headers-IsSound none c found s = s
take_headers-IsSound (some k) c found s = record {
  req_in = s.req_in;
  header_in = λ h. found k refl;
  body_in = λ h small. ground arith;
  answer_whole = same_response c (take_headers (some k) c) s.answer_whole refl;
}

pub read_headers-IsSound : (c : Conn) → IsSound c → IsSound (read_headers c)
unfolding read_headers
read_headers-IsSound c s =
    choose (not c.headers_complete)
      (take_headers-IsSound (case_find c.req crlf_crlf) c (λ k. case_find-le c.req crlf_crlf k) s) s
  where
    choose : {d e : Conn} (b : Bool) → IsSound d → IsSound e → IsSound (if b then d else e)
    choose true h k = h
    choose false h k = k

-- Sending changes nothing but `sent_len`.
pub Sends-IsSound : (c : Conn) (s : Sent) → IsSound c → IsWhole c → Sends c s → IsSound s.conn
Sends-IsSound c s sound w r =
    let kept : IsSound (record c { sent_len = s.conn.sent_len }) = record {
      req_in = sound.req_in;
      header_in = sound.header_in;
      body_in = sound.body_in;
      answer_whole = subst IsWhole r.conn_is (sent-IsWhole c s w r);
    } in
    subst IsSound (sym r.conn_is) kept

prepare-IsSound :
    (r : Response) (c : Conn)
    → Fits r
    → IsSound c
    → IsSound (prepare r.status r.status_text r.content_type r.body r.body_len c)
unfolding prepare
prepare-IsSound r c f s = record {
  req_in = s.req_in;
  header_in = s.header_in;
  body_in = s.body_in;
  answer_whole = (prepare-IsWhole r c f).0;
}

pub begin_response-IsSound :
    (tcp : Lwip) (r : Response) (c : Conn)
    → Fits r
    → IsSound c
    → IsSound (begin_response tcp r.status r.status_text r.content_type r.body r.body_len c).conn
unfolding begin_response
begin_response-IsSound tcp r c f s =
    let d : Conn = prepare r.status r.status_text r.content_type r.body r.body_len c in
    let w : IsWhole d = (prepare-IsWhole r c f).0 in
    Sends-IsSound d (send_more tcp d) (prepare-IsSound r c f s) w (send_more-Sends tcp d w)
