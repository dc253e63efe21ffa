-- ===== src/HttpServer/Send/Delivered.antt =====
-- What a client receives of a handler's response.
use pico2w_grbl_bridge.Base.{ℕ, ◌≤◌, ◌≡◌, ◌∙◌, ◌++◌, List, length, Bytes}
use pico2w_grbl_bridge.Floats.{Floats}
use pico2w_grbl_bridge.Api.Output.{Response}
use pico2w_grbl_bridge.Api.Dispatch.{Site, api_dispatch}
use pico2w_grbl_bridge.Api.Dispatch.Fits.{Fits, api_dispatch-Fits}
use pico2w_grbl_bridge.HttpServer.Conn.{Conn}
use pico2w_grbl_bridge.HttpServer.Send.{Lwip, head_text, prepare}
use pico2w_grbl_bridge.HttpServer.Send.Head.{prepare-IsWhole}
use pico2w_grbl_bridge.HttpServer.Send.Whole.{sends, sends_all, AllGive}

-- the whole text of a response
abbrev pub response_text : Response → Bytes
response_text r = head_text r.status r.status_text r.content_type r.body_len ++ r.body

fitting_delivered :
    (r : Response) (calls : List Lwip) (c : Conn)
    → Fits r
    → AllGive calls
    → length (response_text r) ≤ length calls
    → (sends calls (prepare r.status r.status_text r.content_type r.body r.body_len c)).1
      ≡ response_text r
fitting_delivered r calls c f give enough =
    let (whole, start, text_is) = prepare-IsWhole r c f in
    sends_all calls (prepare r.status r.status_text r.content_type r.body r.body_len c) whole start
      give (rw text_is enough)
    ∙ text_is

-- Every response of `api_dispatch` reaches the client whole, its head with no byte cut off and its
-- body behind it, over as many calls of `send_more` as it has bytes, however little room lwIP has at
-- a time. (Each call finds some room and its first write is taken; the access point's name fits.)
pub response_delivered :
    (fl : Floats) (index_html method path body : Bytes) (now : ℕ) (site : Site fl.Real)
    → length site.wifi.ap_ssid ≤ 31
    → (calls : List Lwip) (c : Conn) → AllGive calls
    → length (response_text (api_dispatch fl index_html method path body 7168 now site).0)
      ≤ length calls
    → (let (r, site') = api_dispatch fl index_html method path body 7168 now site in
        (sends calls (prepare r.status r.status_text r.content_type r.body r.body_len c)).1
        ≡ response_text r)
response_delivered fl index_html method path body now site named calls c give enough =
    fitting_delivered (api_dispatch fl index_html method path body 7168 now site).0 calls c
      (api_dispatch-Fits fl index_html method path body now site named) give enough
