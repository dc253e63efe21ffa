-- ===== src/HttpServer/Send/Tests.antt =====
-- Tests of the responses.
use pico2w_grbl_bridge.HttpServer.Examples.{site, narrow, narrow_gives}
use pico2w_grbl_bridge.Base.{
  [], ◌+◌, ◌≤◌, ◌≡◌, ◌≢◌, refl, true, codes, arith, length, take, replicate,
}
use pico2w_grbl_bridge.CString.Decimal.{decimal}
use pico2w_grbl_bridge.CString.{str_eq}
use pico2w_grbl_bridge.Api.Dispatch.{not_found}
use pico2w_grbl_bridge.Floats.Examples.{strokes}
use pico2w_grbl_bridge.Api.Dispatch.{api_dispatch}
use pico2w_grbl_bridge.HttpServer.Conn.{Conn, fresh}
use pico2w_grbl_bridge.HttpServer.Send.{head_text, all_sent, out_of_fuel, send_more, prepare}
use pico2w_grbl_bridge.HttpServer.Send.Progress.{text, send_more_ends}
use pico2w_grbl_bridge.HttpServer.Send.Whole.{sends, sends-text}
use pico2w_grbl_bridge.HttpServer.Send.Delivered.{response_text, response_delivered}

abbrev whole : Conn
whole = record (fresh 5) {
  resp_head = codes "head";
  head_len = 4;
  resp_body = codes "body";
  body_len = 4;
  response_ready = true;
}

send_more_ends_example :
    let s = send_more narrow whole in
    (s.exit ≢ out_of_fuel) × (s.exit ≡ all_sent → whole.head_len + whole.body_len ≤ s.conn.sent_len)
send_more_ends_example = send_more_ends narrow whole

sends-text_example :
    let (d, written) = sends (replicate 2 narrow) whole in
    (written ≡ take d.sent_len (text whole)) × (d.sent_len ≤ length (text whole))
sends-text_example =
    sends-text (replicate 2 narrow) whole
      (record { head_is = refl; body_is = refl; sent_in = omega arith }) refl

response_delivered_example :
    (let (r, site') = api_dispatch strokes [] (codes "GET") (codes "/nothing") [] 7168 0 site in
      (sends
        (replicate 256 narrow)
        (prepare r.status r.status_text r.content_type r.body r.body_len (fresh 5))).1
      ≡ response_text r)
unfolding head_text decimal str_eq not_found api_dispatch
response_delivered_example =
    response_delivered strokes [] (codes "GET") (codes "/nothing") [] 0 site (omega arith)
      (replicate 256 narrow) (fresh 5) (narrow_gives 256) (omega arith)
