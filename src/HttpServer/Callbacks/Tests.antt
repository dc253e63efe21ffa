-- ===== src/HttpServer/Callbacks/Tests.antt =====
-- Runs of the HTTP server.
use pico2w_grbl_bridge.HttpServer.Examples.{env, site}
use pico2w_grbl_bridge.Base.{◌≡◌, ◌++◌, ◌∷◌, [], refl, codes, arith, Bytes, ℕ, List, some}
use pico2w_grbl_bridge.Floats.Examples.{strokes}
use pico2w_grbl_bridge.CString.{strtol}
use pico2w_grbl_bridge.HttpServer.Find.{case_find}
use pico2w_grbl_bridge.HttpServer.Conn.{fresh}
use pico2w_grbl_bridge.HttpServer.Callbacks.{number_at, on_recv}
use pico2w_grbl_bridge.HttpServer.Callbacks.Run.{Call, sent, polled, run}
use pico2w_grbl_bridge.HttpServer.Callbacks.Sound.{Sound, run-Sound}
use pico2w_grbl_bridge.HttpServer.Callbacks.Once.{AtMostOne, run-AtMostOne}
use pico2w_grbl_bridge.HttpServer.Callbacks.Shape.{IsRequest, ready}
use pico2w_grbl_bridge.HttpServer.Callbacks.Chunks.{
  Arrival, arrives, quiet, at_once, recv_in_pieces,
}
use pico2w_grbl_bridge.HttpServer.Callbacks.Answer.{HasLine, dispatched, request_answered}

abbrev front_text : Bytes
front_text = codes "POST /api/gcode?x HTTP/1.1\r\ncontent-length: 2"

abbrev last_text : Bytes
last_text = codes "\r\n\r\n$H"

abbrev request : Bytes
request = front_text ++ last_text

abbrev front : Arrival ℕ
front = record { piece = front_text; env = env; site = site }

abbrev last : Arrival ℕ
last = record { piece = last_text; env = env; site = site }

request-IsRequest : IsRequest request 45 2
unfolding case_find number_at strtol
request-IsRequest = record {
  header_ends = refl;
  length_is = refl;
  number_inside = ground arith;
  whole = refl;
  small = omega arith;
}

recv_in_pieces_example :
    run strokes [] (arrives front ∷ arrives last ∷ []) (some (fresh 5))
    ≡ at_once strokes [] (quiet front ∷ []) env request (fresh 5) site
recv_in_pieces_example =
    recv_in_pieces strokes [] request 45 2 5 request-IsRequest (front ∷ []) last refl (λ e. cc)

request-HasLine : HasLine request 45 (codes "POST") (codes "/api/gcode") (some (codes "x"))
request-HasLine = record {
  rest = codes "HTTP/1.1\r\ncontent-length: 2\r\n\r\n";
  line_is = refl;
  method_is = omega arith;
  method_fits = omega arith;
  path_is = omega arith;
  path_fits = omega arith;
  path_given = λ e. cc;
  query_is = omega arith;
}

request_answered_example :
    on_recv strokes [] env (some request) (fresh 5) site
    ≡ dispatched strokes [] env
        (ready request 45 2 5 request-IsRequest request)
        site
        (record { method = codes "POST"; path = codes "/api/gcode"; body = codes "$H" })
request_answered_example =
    request_answered strokes [] request 45 2 5 request-IsRequest (codes "POST") (codes "/api/gcode")
      (some (codes "x")) request-HasLine env site

abbrev calls : List (Call ℕ)
calls =
    arrives front
    ∷ arrives last
    ∷ record { env = env; event = sent; site = site }
    ∷ record { env = env; event = polled; site = site }
    ∷ []

run-Sound_example : Sound (run strokes [] calls (some (fresh 5))).0
run-Sound_example = run-Sound strokes [] calls 5 (omega arith)

run-AtMostOne_example : AtMostOne strokes [] (run strokes [] calls (some (fresh 5))).1
run-AtMostOne_example = run-AtMostOne strokes [] calls (some (fresh 5))
