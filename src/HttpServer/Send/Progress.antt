-- ===== src/HttpServer/Send/Progress.antt =====
-- What goes out is the response, in order, each byte once.
use native.Mathlib.Nat.{mod-eq_of_lt}
use pico2w_grbl_bridge.Base.{
  true, ltb→le, length-drop, ltb→lt, ℕ, zero, suc, ◌+◌, ◌-◌, ◌%◌, ◌^◌, ◌≤◌, ◌<◌, ◌≡◌, ◌≢◌, refl,
  sym, ap, ap₂, ◌∙◌, [], ◌++◌, arith, length, take, drop, drop-append, ltb, ◌==◌, Bytes, Bool-cases,
  inl, inr,
}
use pico2w_grbl_bridge.Base.Pieces.{take-append_le, drop-append_ge, take-drop_join}
use pico2w_grbl_bridge.HttpServer.Conn.{Conn}
use pico2w_grbl_bridge.HttpServer.Send.{
  Lwip, Exit, all_sent, no_room, refused, out_of_fuel, Sent, chunk_of, piece_of, send_loop,
  send_more,
}

-- the whole response
abbrev pub text : Conn → Bytes
text c = c.resp_head ++ c.resp_body

-- The lengths are those of the texts, and no more is sent than there is.
pub record IsWhole (c : Conn) : Type 0 where
  pub head_is : length c.resp_head ≡ c.head_len
  pub body_is : length c.resp_body ≡ c.body_len
  pub sent_in : c.sent_len ≤ c.head_len + c.body_len

-- What sending does to a connection: only `sent_len` grows, and the bytes written are those between
-- its old and its new value.
pub record Sends (c : Conn) (s : Sent) : Type 0 where
  pub conn_is : s.conn ≡ record c { sent_len = s.conn.sent_len }
  pub grows : c.sent_len ≤ s.conn.sent_len
  pub sent_in : s.conn.sent_len ≤ c.head_len + c.body_len
  pub written_is : s.written ≡ take (s.conn.sent_len - c.sent_len) (drop c.sent_len (text c))

chunk_of_bounds :
    (avail : ℕ) (c : Conn)
    → c.sent_len < c.head_len + c.body_len
    → 0 < avail
    → (0 < chunk_of avail c)
      × (chunk_of avail c ≤ avail)
      × (c.sent_len + chunk_of avail c ≤ c.head_len + c.body_len)
      × (c.sent_len < c.head_len → c.sent_len + chunk_of avail c ≤ c.head_len)
unfolding chunk_of
chunk_of_bounds avail c h room = (ground arith, ground arith, ground arith, λ inside. ground arith)

piece_of_lem :
    (chunk : ℕ) (c : Conn)
    → IsWhole c
    → chunk < 2 ^ 16
    → (c.sent_len < c.head_len → c.sent_len + chunk ≤ c.head_len)
    → piece_of chunk c ≡ take chunk (drop c.sent_len (text c))
unfolding piece_of
piece_of_lem chunk c w small inside = elim (Bool-cases (ltb c.sent_len c.head_len)) [
  | inl before ↦
      rw (before, mod-eq_of_lt small)
        (sym (
            take-append_le chunk (drop c.sent_len c.resp_head) c.resp_body (
              omega
                (arith, length-drop c.sent_len c.resp_head, w.head_is, inside (ltb→lt _ _ before))))
          ∙ ap (take chunk) (
              sym (
                drop-append c.sent_len c.resp_head c.resp_body
                  (omega (arith, w.head_is, ltb→lt _ _ before)))))
  | inr behind ↦
      rw (behind, mod-eq_of_lt small)
        (ap (λ k. take chunk (drop (c.sent_len - k) c.resp_body)) (sym w.head_is)
          ∙ ap (take chunk) (
              sym (
                drop-append_ge c.sent_len c.resp_head c.resp_body
                  (omega (arith, w.head_is, ltb→le _ _ behind)))))
]

-- With more fuel than there are bytes left the loop ends by its condition or by one of its breaks.
send_loop_ends :
    (fuel round : ℕ) (tcp : Lwip) (c : Conn)
    → c.head_len + c.body_len - c.sent_len < fuel
    → (send_loop fuel round tcp c).exit ≢ out_of_fuel
unfolding send_loop
send_loop_ends zero round tcp c h = ground arith
send_loop_ends (suc fuel) round tcp c h = ground (
  arith,
  chunk_of_bounds (tcp.sndbuf round % 2 ^ 16) c,
  send_loop_ends fuel (round + 1) tcp
      (record c { sent_len = c.sent_len + chunk_of (tcp.sndbuf round % 2 ^ 16) c }),
)

all_sent_lem :
    (fuel round : ℕ) (tcp : Lwip) (c : Conn)
    → (send_loop fuel round tcp c).exit ≡ all_sent
    → c.head_len + c.body_len ≤ (send_loop fuel round tcp c).conn.sent_len
unfolding send_loop
all_sent_lem zero round tcp c h = ground arith
all_sent_lem (suc fuel) round tcp c h = ground (
  arith,
  all_sent_lem fuel (round + 1) tcp
      (record c { sent_len = c.sent_len + chunk_of (tcp.sndbuf round % 2 ^ 16) c }),
)

stopped-Sends :
    (c : Conn) (exit : Exit) → IsWhole c → Sends c (record { conn = c; written = []; exit = exit })
stopped-Sends c exit w = record {
  conn_is = refl;
  grows = omega arith;
  sent_in = w.sent_in;
  written_is =
      ap (λ n. take n (drop c.sent_len (text c))) {x = 0} {y = c.sent_len - c.sent_len}
        (omega arith);
}

-- One round, and the rounds behind it.
round-Sends :
    (c : Conn) (chunk : ℕ) (piece : Bytes) (rest : Sent)
    → piece ≡ take chunk (drop c.sent_len (text c))
    → Sends (record c { sent_len = c.sent_len + chunk }) rest
    → Sends c (record rest { written = piece ++ rest.written })
round-Sends c chunk piece rest e r =
    let n : ℕ = rest.conn.sent_len - (c.sent_len + chunk) in
    let whole : chunk + n ≡ rest.conn.sent_len - c.sent_len = omega (arith, r.grows) in
    record {
      conn_is = r.conn_is;
      grows = omega (arith, r.grows);
      sent_in = r.sent_in;
      written_is =
          ap₂ ◌++◌ e r.written_is
          ∙ take-drop_join c.sent_len chunk n (text c)
          ∙ ap (λ k. take k (drop c.sent_len (text c))) whole;
    }

send_loop-Sends :
    (fuel round : ℕ) (tcp : Lwip) (c : Conn) → IsWhole c → Sends c (send_loop fuel round tcp c)
unfolding send_loop
send_loop-Sends zero round tcp c w = stopped-Sends c out_of_fuel w
send_loop-Sends (suc fuel) round tcp c w =
    let avail : ℕ = tcp.sndbuf round % 2 ^ 16 in
    let next : Conn = record c { sent_len = c.sent_len + chunk_of avail c } in
    elim (Bool-cases (ltb c.sent_len (c.head_len + c.body_len))) [
      | inr done ↦ rw done (stopped-Sends c all_sent w)
      | inl more ↦ elim (Bool-cases (avail == 0)) [
        | inl full ↦ rw (more, full) (stopped-Sends c no_room w)
        | inr room ↦ elim (Bool-cases (tcp.write_ok round)) [
          | inr failed ↦ rw (more, room, failed) (stopped-Sends c refused w)
          | inl taken ↦
              let b = chunk_of_bounds avail c (ltb→lt _ _ more) (ground arith) in
              rw (more, room, taken)
                (round-Sends c (chunk_of avail c) (piece_of (chunk_of avail c) c)
                  (send_loop fuel (round + 1) tcp next)
                  (piece_of_lem (chunk_of avail c) c w (omega (arith, b.1)) b.3)
                  (send_loop-Sends fuel (round + 1) tcp next
                    (record { head_is = w.head_is; body_is = w.body_is; sent_in = b.2 })))
        ]
      ]
    ]

-- Whatever room lwIP has and whichever writes it takes, a call of `send_more` ends: by its
-- condition, for want of room or with a refused write. It ends by its condition only if all of the
-- response is sent.
pub send_more_ends :
    (tcp : Lwip) (c : Conn)
    → (let s = send_more tcp c in
        (s.exit ≢ out_of_fuel) × (s.exit ≡ all_sent → c.head_len + c.body_len ≤ s.conn.sent_len))
unfolding send_more
send_more_ends tcp c =
    let fuel : ℕ = suc (c.head_len + c.body_len - c.sent_len) in
    (send_loop_ends fuel 0 tcp c (omega arith), all_sent_lem fuel 0 tcp c)

pub send_more-Sends : (tcp : Lwip) (c : Conn) → IsWhole c → Sends c (send_more tcp c)
unfolding send_more
send_more-Sends tcp c w = send_loop-Sends (suc (c.head_len + c.body_len - c.sent_len)) 0 tcp c w

-- lwIP has room in the first round of a call, and takes the write.
abbrev pub Gives : Lwip → Type 0
Gives tcp = (0 < tcp.sndbuf 0 % 2 ^ 16) × (tcp.write_ok 0 ≡ true)

-- Such a call sends at least a byte.
pub send_more_grows :
    (tcp : Lwip) (c : Conn)
    → IsWhole c
    → Gives tcp
    → c.sent_len < c.head_len + c.body_len
    → c.sent_len < (send_more tcp c).conn.sent_len
unfolding send_more send_loop
send_more_grows tcp c w g more =
    let avail : ℕ = tcp.sndbuf 0 % 2 ^ 16 in
    let b = chunk_of_bounds avail c more g.0 in
    let next : Conn = record c { sent_len = c.sent_len + chunk_of avail c } in
    let r =
      send_loop-Sends (c.head_len + c.body_len - c.sent_len) 1 tcp next
        (record { head_is = w.head_is; body_is = w.body_is; sent_in = b.2 }) in
    let grown : c.sent_len + chunk_of avail c
        ≤ (send_loop (c.head_len + c.body_len - c.sent_len) 1 tcp next).conn.sent_len =
      r.grows in
    ground (arith, b.0, grown)
