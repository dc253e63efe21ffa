-- ===== src/HttpServer/Send.antt =====
-- `send_more` and `begin_response` of src/http_server.c.
pub mod Progress
pub mod Head
pub mod Whole
pub mod Delivered
mod Tests
use pico2w_grbl_bridge.Base.{
  ℕ, zero, suc, ◌+◌, ◌-◌, ◌%◌, ◌^◌, Bool, true, not, List, [], ◌∷◌, ◌++◌, length, joined, take,
  drop, ltb, ◌==◌, if◌then◌else◌, Bytes, codes,
}
use pico2w_grbl_bridge.CString.Decimal.{decimal}
use pico2w_grbl_bridge.HttpServer.Conn.{Conn, resp_head_size}

-- What lwIP answers in each round of the loop: the room that `tcp_sndbuf` reports, and whether
-- `tcp_write` takes the bytes.
pub record Lwip : Type 0 where
  pub sndbuf : ℕ → ℕ
  pub write_ok : ℕ → Bool

-- How the loop ends: by its condition, by one of the two `break`s, or for want of fuel.
pub data Exit : Type 0 where
  all_sent no_room refused out_of_fuel : Exit

-- the connection behind the loop, the bytes that `tcp_write` took, and how it ended
pub record Sent : Type 0 where
  pub conn : Conn
  pub written : Bytes
  pub exit : Exit

-- `chunk`, at what `tcp_sndbuf` returns, a `u16_t`
unfoldable pub chunk_of : ℕ → Conn → ℕ
chunk_of avail c =
    let remaining : ℕ = c.head_len + c.body_len - c.sent_len in
    let chunk : ℕ = if ltb remaining avail then remaining else avail in
    let head_remaining : ℕ = c.head_len - c.sent_len in
    if ltb c.sent_len c.head_len
    then (if ltb head_remaining chunk then head_remaining else chunk)
    else chunk

-- the `(u16_t) chunk` bytes from `src` on
unfoldable pub piece_of : ℕ → Conn → Bytes
piece_of chunk c =
    if ltb c.sent_len c.head_len
    then take (chunk % 2 ^ 16) (drop c.sent_len c.resp_head)
    else take (chunk % 2 ^ 16) (drop (c.sent_len - c.head_len) c.resp_body)

-- the `while` loop, from the given round on
unfoldable pub send_loop : ℕ → ℕ → Lwip → Conn → Sent
unfolding chunk_of piece_of
send_loop zero round tcp c = record { conn = c; written = []; exit = out_of_fuel }
send_loop (suc fuel) round tcp c =
    let avail : ℕ = tcp.sndbuf round % 2 ^ 16 in
    let chunk : ℕ = chunk_of avail c in
    let rest = send_loop fuel (round + 1) tcp (record c { sent_len = c.sent_len + chunk }) in
    if not (ltb c.sent_len (c.head_len + c.body_len))
    then record { conn = c; written = []; exit = all_sent }
    else if avail == 0
    then record { conn = c; written = []; exit = no_room }
    else if not (tcp.write_ok round)
    then record { conn = c; written = []; exit = refused }
    else record rest { written = piece_of chunk c ++ rest.written }

-- `send_more`
unfoldable pub send_more : Lwip → Conn → Sent
send_more tcp c = send_loop (suc (c.head_len + c.body_len - c.sent_len)) 0 tcp c

-- the text that the format of `begin_response` makes
unfoldable pub head_text : ℕ → Bytes → Bytes → ℕ → Bytes
head_text status status_text content_type body_len = joined (
    codes "HTTP/1.0 "
    ∷ decimal status
    ∷ codes " "
    ∷ status_text
    ∷ codes "\r\nContent-Type: "
    ∷ content_type
    ∷ codes "\r\nContent-Length: "
    ∷ decimal (body_len % 2 ^ 32)
    ∷ codes "\r\nConnection: close\r\nAccess-Control-Allow-Origin: *\r\n\r\n"
    ∷ [])

-- `begin_response` up to `send_more`
unfoldable pub prepare : ℕ → Bytes → Bytes → Bytes → ℕ → Conn → Conn
unfolding head_text
prepare status status_text content_type body body_len c =
    let text : Bytes = head_text status status_text content_type body_len in
    record c {
      resp_body = body;
      body_len = body_len;
      resp_head = take (resp_head_size - 1) text;
      head_len = length text;
      response_ready = true;
      sent_len = 0;
    }

unfoldable pub begin_response : Lwip → ℕ → Bytes → Bytes → Bytes → ℕ → Conn → Sent
begin_response tcp status status_text content_type body body_len c =
    send_more tcp (prepare status status_text content_type body body_len c)
