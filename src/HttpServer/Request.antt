-- ===== src/HttpServer/Request.antt =====
-- `build_and_send` of src/http_server.c, up to `api_dispatch`: how the request line is read.
pub mod Line
use pico2w_grbl_bridge.Base.{
  ℕ, zero, suc, Option, none, some, [], ◌∷◌, take, drop, ◌==◌, if◌then◌else◌, Bytes,
}
use pico2w_grbl_bridge.CString.{c_str, split_at}
use pico2w_grbl_bridge.HttpServer.Conn.{Conn}

-- a word of at most that many bytes, and what is behind it
unfoldable pub word : ℕ → Bytes → Bytes × Bytes
word zero s = ([], s)
word (suc n) [] = ([], [])
word (suc n) (c ∷ s) = let (w, rest) = word n s in if c == b' ' then ([], c ∷ s) else (c ∷ w, rest)

-- `while (i < c->header_end && c->req[i] != ' ') i++;`
unfoldable pub skip_word : Bytes → Bytes
skip_word [] = []
skip_word (c ∷ s) = if c == b' ' then c ∷ s else skip_word s

-- `while (i < c->header_end && c->req[i] == ' ') i++;`
unfoldable pub skip_spaces : Bytes → Bytes
skip_spaces [] = []
skip_spaces (c ∷ s) = if c == b' ' then skip_spaces s else c ∷ s

-- `char *qmark = strchr(path, '?'); if (qmark) *qmark = '\0';`
abbrev pub before : Bytes → Option (Bytes × Bytes) → Bytes
before path none = path
before path (some (front, query)) = front

-- what `api_dispatch` is called with
pub record Request : Type 0 where
  pub method : Bytes
  pub path : Bytes
  pub body : Bytes

-- `method` and `path`, from the first `header_end` bytes of `req`
unfoldable pub request_line : Bytes → Bytes × Bytes
unfolding word skip_word skip_spaces
request_line head =
    let (method, rest) = word 7 head in
    let path : Bytes = c_str (word 159 (skip_spaces (skip_word rest))).0 in
    (c_str method, before path (split_at b'?' path))

-- `c->content_length > 0 ? (size_t) c->content_length : 0`
abbrev pub length_or_zero : Option ℕ → ℕ
length_or_zero none = 0
length_or_zero (some n) = n

unfoldable pub request_of : Conn → Request
unfolding request_line
request_of c =
    let (method, path) = request_line (take c.header_end c.req) in
    record {
      method = method;
      path = path;
      body = take (length_or_zero c.content_length) (drop c.header_end c.req);
    }
