-- ===== src/HttpServer/Send/Whole.antt =====
-- A response over all the calls of `send_more` that it takes.
use mathlib.Core.Path.{subst}
use native.Mathlib.Decide.{dec_lt}
use pico2w_grbl_bridge.Base.{
  ◌+◌, ◌-◌, ◌≤◌, ◌≡◌, refl, sym, ap, ap₂, ◌∙◌, List, [], ◌∷◌, ◌++◌, arith, length, length-append,
  take, drop, take_all, min, Bytes,
}
use pico2w_grbl_bridge.Base.Pieces.{take-drop_join}
use pico2w_grbl_bridge.HttpServer.Conn.{Conn}
use pico2w_grbl_bridge.HttpServer.Send.{Lwip, Sent, send_more}
use pico2w_grbl_bridge.HttpServer.Send.Progress.{
  text, IsWhole, Sends, Gives, send_more-Sends, send_more_grows,
}

-- the calls of `send_more` from `begin_response`, `on_sent` and `on_poll`, each at what lwIP answers
unfoldable pub sends : List Lwip → Conn → Conn × Bytes
sends [] c = (c, [])
sends (tcp ∷ calls) c =
    let s = send_more tcp c in let (c', rest) = sends calls s.conn in (c', s.written ++ rest)

abbrev pub AllGive : List Lwip → Type 0
AllGive [] = Unit
AllGive (tcp ∷ calls) = Gives tcp × AllGive calls

record Streams (c : Conn) (d : Conn) (written : Bytes) : Type 0 where
  total_same : d.head_len + d.body_len ≡ c.head_len + c.body_len
  grows : c.sent_len ≤ d.sent_len
  sent_in : d.sent_len ≤ c.head_len + c.body_len
  written_is : written ≡ take (d.sent_len - c.sent_len) (drop c.sent_len (text c))

pub sent-IsWhole : (c : Conn) (s : Sent) → IsWhole c → Sends c s → IsWhole s.conn
sent-IsWhole c s w r =
    subst IsWhole (sym r.conn_is)
      (record { head_is = w.head_is; body_is = w.body_is; sent_in = r.sent_in })

sends-Streams :
    (calls : List Lwip) (c : Conn)
    → IsWhole c
    → (let (d, written) = sends calls c in Streams c d written)
unfolding sends
sends-Streams [] c w = record {
  total_same = refl;
  grows = omega arith;
  sent_in = w.sent_in;
  written_is =
      ap (λ n. take n (drop c.sent_len (text c))) {x = 0} {y = c.sent_len - c.sent_len}
        (omega arith);
}
sends-Streams (tcp ∷ calls) c w =
    let s = send_more tcp c in
    let r = send_more-Sends tcp c w in
    let later = sends-Streams calls s.conn (sent-IsWhole c s w r) in
    let d = (sends calls s.conn).0 in
    let total : s.conn.head_len + s.conn.body_len ≡ c.head_len + c.body_len =
      ap (λ (k : Conn). k.head_len + k.body_len) r.conn_is in
    let start : c.sent_len + (s.conn.sent_len - c.sent_len) ≡ s.conn.sent_len =
      omega (arith, r.grows) in
    let count : s.conn.sent_len - c.sent_len + (d.sent_len - s.conn.sent_len)
        ≡ d.sent_len - c.sent_len =
      omega (arith, r.grows, later.grows) in
    record {
      total_same = later.total_same ∙ total;
      grows = omega (arith, r.grows, later.grows);
      sent_in = omega (arith, later.sent_in, total);
      written_is =
          ap₂ ◌++◌ r.written_is (
            later.written_is
            ∙ ap (λ t. take (d.sent_len - s.conn.sent_len) (drop s.conn.sent_len t))
                (ap text r.conn_is)
            ∙ ap (λ k. take (d.sent_len - s.conn.sent_len) (drop k (text c))) (sym start))
          ∙ take-drop_join c.sent_len (s.conn.sent_len - c.sent_len) (d.sent_len - s.conn.sent_len)
              (text c)
          ∙ ap (λ k. take k (drop c.sent_len (text c))) count;
    }

sends_reach :
    (calls : List Lwip) (c : Conn)
    → IsWhole c
    → AllGive calls
    → min (c.head_len + c.body_len) (c.sent_len + length calls) ≤ (sends calls c).0.sent_len
unfolding sends
sends_reach [] c w g = omega arith
sends_reach (tcp ∷ calls) c w g =
    let s = send_more tcp c in
    let r = send_more-Sends tcp c w in
    let total : s.conn.head_len + s.conn.body_len ≡ c.head_len + c.body_len =
      ap (λ (k : Conn). k.head_len + k.body_len) r.conn_is in
    let later = sends_reach calls s.conn (sent-IsWhole c s w r) g.1 in
    elim (dec_lt c.sent_len (c.head_len + c.body_len)) [
      | yes more ↦ omega (arith, total, later, send_more_grows tcp c w g.0 more)
      | no done ↦ omega (arith, total, later, r.grows)
    ]

-- Whatever lwIP answers, the bytes that are written over all calls are the response's text from its
-- beginning, without gap or repetition. (The lengths are those of the texts, and nothing was sent.)
pub sends-text :
    (calls : List Lwip) (c : Conn)
    → IsWhole c
    → c.sent_len ≡ 0
    → (let (d, written) = sends calls c in
        (written ≡ take d.sent_len (text c)) × (d.sent_len ≤ length (text c)))
sends-text calls c w start =
    let r = sends-Streams calls c w in
    let d = (sends calls c).0 in
    (
      r.written_is
          ∙ ap (λ k. take (d.sent_len - k) (drop k (text c))) start
          ∙ ap (λ k. take k (text c)) {x = d.sent_len - 0} {y = d.sent_len} (omega arith),
      omega (arith, r.sent_in, length-append c.resp_head c.resp_body, w.head_is, w.body_is),
    )

-- If every call finds some room and its first write is taken, as many calls as the response has
-- bytes send all of it, however little room there is at a time.
pub sends_all :
    (calls : List Lwip) (c : Conn)
    → IsWhole c
    → c.sent_len ≡ 0
    → AllGive calls
    → length (text c) ≤ length calls
    → (sends calls c).1 ≡ text c
sends_all calls c w start g enough =
    (sends-text calls c w start).0
    ∙ take_all (sends calls c).0.sent_len (text c) (
        omega (
          arith,
          sends_reach calls c w g,
          length-append c.resp_head c.resp_body,
          w.head_is,
          w.body_is,
        ))
