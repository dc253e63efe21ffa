-- ===== src/HttpServer/Conn.antt =====
-- `http_conn_t` of src/http_server.c.
use pico2w_grbl_bridge.Base.{ℕ, ◌*◌, Bool, false, Option, none, [], Bytes}

abbrev pub req_buf_size : ℕ
req_buf_size = 4096

abbrev pub resp_buf_size : ℕ
resp_buf_size = 7168

abbrev pub resp_head_size : ℕ
resp_head_size = 192

abbrev pub headers_timeout_us : ℕ
headers_timeout_us = 10 * 1000 * 1000

-- `req` is its first `req_len` bytes, `resp_head` and `resp_body` are the bytes that their pointers
-- lead to. In `content_length`, `none` is the -1. The connection's `pcb` and its scratch buffer are
-- left out.
pub record Conn : Type 0 where
  pub created : ℕ
  pub req : Bytes
  pub headers_complete : Bool
  pub header_end : ℕ
  pub content_length : Option ℕ
  pub oversized : Bool
  pub resp_body : Bytes
  pub resp_head : Bytes
  pub head_len : ℕ
  pub body_len : ℕ
  pub sent_len : ℕ
  pub response_ready : Bool

-- what `on_accept` makes of the memory from `calloc`, at time `now`
abbrev pub fresh : ℕ → Conn
fresh now = record {
  created = now;
  req = [];
  headers_complete = false;
  header_end = 0;
  content_length = none;
  oversized = false;
  resp_body = [];
  resp_head = [];
  head_len = 0;
  body_len = 0;
  sent_len = 0;
  response_ready = false;
}
