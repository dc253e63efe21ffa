-- ===== src/HttpServer/Callbacks.antt =====
-- The callbacks of src/http_server.c.
pub mod Run
pub mod Bounds
pub mod Sound
pub mod Once
pub mod Number
pub mod Shape
pub mod Chunks
pub mod Answer
mod Tests
use pico2w_grbl_bridge.Base.{
  ℕ, ◌+◌, ◌-◌, ◌%◌, ◌^◌, Bool, true, false, not, ◌&&◌, ◌||◌, Option, none, some, [], ◌∷◌, ◌++◌,
  length, take, drop, ltb, leb, ◌==◌, if◌then◌else◌, Bytes, codes,
}
use pico2w_grbl_bridge.CString.{c_str, Strtol, strtol}
use pico2w_grbl_bridge.Floats.{Floats}
use pico2w_grbl_bridge.Api.Output.{Response}
use pico2w_grbl_bridge.Api.Dispatch.{Site, api_dispatch}
use pico2w_grbl_bridge.HttpServer.Find.{case_find}
use pico2w_grbl_bridge.HttpServer.Conn.{
  Conn, fresh, req_buf_size, resp_buf_size, headers_timeout_us,
}
use pico2w_grbl_bridge.HttpServer.Send.{Lwip, Sent, send_more, begin_response}
use pico2w_grbl_bridge.HttpServer.Request.{Request, request_of}

-- `err_t`
pub data Err : Type 0 where
  err_ok err_abrt err_val err_mem : Err

-- What a callback meets: lwIP's answers, and the time.
pub record Env : Type 0 where
  pub tcp : Lwip
  -- `tcp_close` returns `ERR_OK`
  pub close_ok : Bool
  pub now : ℕ

-- `close_conn`, of a pcb that is not NULL: the connection is freed.
unfoldable pub close_conn : Env → Err
close_conn e = if e.close_ok then err_ok else err_abrt

-- `if (p->tot_len > 0) { .. }`, for the bytes of the pbuf
unfoldable pub store : Bytes → Conn → Conn
store p c =
    let space : ℕ = (req_buf_size - 1 + 2 ^ 32 - length c.req) % 2 ^ 32 in
    let copy_len : ℕ = if ltb (length p) space then length p else space in
    record c {
      req = c.req ++ take (copy_len % 2 ^ 16) p;
      oversized = c.oversized || ltb space (length p);
    }

-- `atoi`, 0 for a negative number
unfoldable pub number_at : Bytes → ℕ
unfolding strtol c_str
number_at s = let r : Strtol = strtol (c_str s) in if r.negative then 0 else r.magnitude

-- `content_length`, for where its header stands
abbrev pub content_length_at : Bytes → Option ℕ → ℕ
content_length_at req none = 0
content_length_at req (some cl_pos) = number_at (drop (cl_pos + 17) req)

abbrev pub crlf_crlf : Bytes
crlf_crlf = codes "\r\n\r\n"

abbrev pub content_length_key : Bytes
content_length_key = codes "\r\nContent-Length:"

-- `if (hdr_pos != (size_t) -1) { .. }`
abbrev pub take_headers : Option ℕ → Conn → Conn
take_headers none c = c
take_headers (some hdr_pos) c =
    let header_end : ℕ = hdr_pos + 4 in
    let n : ℕ = content_length_at c.req (case_find (take header_end c.req) content_length_key) in
    record c {
      headers_complete = true;
      header_end = header_end;
      content_length = some n;
      oversized = c.oversized || ltb (req_buf_size - 1) (header_end + n);
    }

-- `if (!c->headers_complete) { .. }`
unfoldable pub read_headers : Conn → Conn
unfolding case_find number_at
read_headers c = if not c.headers_complete then take_headers (case_find c.req crlf_crlf) c else c

-- `(size_t) c->content_length`
abbrev pub as_size : Option ℕ → ℕ
as_size none = 2 ^ 32 - 1
as_size (some n) = n

-- `have >= (size_t) c->content_length`
unfoldable pub has_body : Conn → Bool
has_body c =
    leb (as_size c.content_length)
      (if ltb c.header_end (length c.req) then length c.req - c.header_end else 0)

-- Behind a callback: the connection, if it is not freed, what is returned to lwIP, the bytes that
-- were written, and what the handlers changed.
pub record After (F : Type 0) : Type 0 where
  pub conn : Option Conn
  pub err : Err
  pub written : Bytes
  pub site : Site F

module _ {F : Type 0} where
  abbrev pub still_open : Conn → Site F → After F
  still_open c site = record { conn = some c; err = err_ok; written = []; site = site }

  abbrev pub sent_on : Sent → Site F → After F
  sent_on s site = record { conn = some s.conn; err = err_ok; written = s.written; site = site }

  abbrev pub closed : Env → Site F → After F
  closed e site = record { conn = none; err = close_conn e; written = []; site = site }

  -- `on_sent`
  unfoldable pub on_sent : Env → Conn → Site F → After F
  on_sent e c site =
      if leb (c.head_len + c.body_len) c.sent_len
      then closed e site
      else sent_on (send_more e.tcp c) site

  -- `on_poll`
  unfoldable pub on_poll : Env → Conn → Site F → After F
  on_poll e c site =
      if c.response_ready
      then sent_on (send_more e.tcp c) site
      else if ltb (c.created + headers_timeout_us) e.now
      then closed e site
      else still_open c site

-- `on_err`: the pcb is gone, and the connection is freed.
abbrev pub on_err : Conn → Option Conn
on_err c = none

-- `on_accept`, for the two tests and for whether `calloc` has memory
unfoldable pub on_accept : Bool → Bool → ℕ → Option Conn × Err
on_accept accepted memory now =
    if not accepted
    then (none, err_val)
    else if not memory
    then (none, err_mem)
    else (some (fresh now), err_ok)

-- `http_server_start`, for whether each of the three calls of lwIP succeeds
unfoldable pub http_server_start : Bool → Bool → Bool → Bool
http_server_start new_ok bind_ok listen_ok = new_ok && (bind_ok && listen_ok)

module _ (fl : Floats) (index_html : Bytes) where
  open fl use {Real}

  -- `build_and_send`
  unfoldable pub build_and_send : Env → Conn → Site Real → After Real
  build_and_send e c site =
      let r : Request = request_of c in
      let (resp, site') =
        api_dispatch fl index_html r.method r.path r.body resp_buf_size e.now site in
      sent_on
        (begin_response e.tcp resp.status resp.status_text resp.content_type resp.body resp.body_len
          c)
        site'

  -- the end of `on_recv`, from `if (!c->response_ready && c->oversized)` on
  unfoldable pub answer : Env → Conn → Site Real → After Real
  unfolding has_body
  answer e c site =
      if not c.response_ready && c.oversized
      then sent_on
          (begin_response e.tcp 413 (codes "Payload Too Large") (codes "text/plain")
            (codes "request too large") 17 c)
          site
      else if not c.response_ready && (c.headers_complete && has_body c)
      then build_and_send e c site
      else still_open c site

  -- `on_recv`; `none` is a NULL pbuf
  unfoldable pub on_recv : Env → Option Bytes → Conn → Site Real → After Real
  on_recv e none c site = closed e site
  on_recv e (some p) c site = answer e (read_headers (store p c)) site
