-- ===== src/HttpServer/Send/Head.antt =====
-- The response's head fits its buffer, so that what is sent of it is all there.
use pico2w_grbl_bridge.Base.{
  ℕ, ◌%◌, ◌^◌, ◌≤◌, ◌<◌, ◌≡◌, refl, ap, arith, length, length-append, take_all, ◌++◌, Bytes, codes,
}
use pico2w_grbl_bridge.CString.Decimal.{decimal}
use pico2w_grbl_bridge.CString.Decimal.Digits.{length-decimal}
use pico2w_grbl_bridge.Api.Output.{Response}
use pico2w_grbl_bridge.Api.Dispatch.Fits.{Fits}
use pico2w_grbl_bridge.HttpServer.Conn.{Conn}
use pico2w_grbl_bridge.HttpServer.Send.{head_text, prepare}
use pico2w_grbl_bridge.HttpServer.Send.Progress.{text, IsWhole}

-- the fixed end of the head
abbrev tail : Bytes
tail = codes "\r\nConnection: close\r\nAccess-Control-Allow-Origin: *\r\n\r\n"

length-head_text :
    (status : ℕ) (status_text content_type : Bytes) (body_len : ℕ)
    → status < 1000
    → length status_text ≤ 19
    → length content_type ≤ 24
    → length (head_text status status_text content_type body_len) ≤ 191
unfolding head_text
length-head_text status status_text content_type body_len small short type_short =
    let n : Bytes = decimal (body_len % 2 ^ 32) in
    let r4 : Bytes = codes "\r\nContent-Length: " ++ (n ++ tail) in
    let r3 : Bytes = codes "\r\nContent-Type: " ++ (content_type ++ r4) in
    omega (
      arith,
      length-decimal 2 status small,
      length-decimal 9 (body_len % 2 ^ 32) (omega arith),
      length-append (decimal status) (codes " " ++ (status_text ++ r3)),
      length-append status_text r3,
      length-append content_type r4,
      length-append n tail,
    )

-- Of a response within the bounds of the handlers, what is prepared to be sent is whole, from its
-- first byte on, and its text is the head with the body behind it.
pub prepare-IsWhole :
    (r : Response) (c : Conn)
    → Fits r
    → (let d = prepare r.status r.status_text r.content_type r.body r.body_len c in
        IsWhole d
        × (d.sent_len ≡ 0)
        × (text d ≡ head_text r.status r.status_text r.content_type r.body_len ++ r.body))
unfolding prepare
prepare-IsWhole r c f =
    let h : Bytes = head_text r.status r.status_text r.content_type r.body_len in
    let fits : length h ≤ 191 =
      length-head_text r.status r.status_text r.content_type r.body_len f.status_small f.text_short
        f.type_short in
    (
      record {
        head_is = ap length (take_all 191 h fits);
        body_is = f.body_whole;
        sent_in = omega arith;
      },
      refl,
      ap (λ t. t ++ r.body) (take_all 191 h fits),
    )
