-- ===== src/Lib.antt =====
-- The firmware of a Raspberry Pi Pico W that bridges a web page and a CNC controller with grblHAL.
--
-- Two cores run. Core1 (src/grbl_link.c) is the USB host of the controller: it assembles received
-- lines, parses status reports, and sends the G-code queue a line at a time, each behind the reply
-- to the one before. Core0 (src/main.c) brings WiFi up (src/wifi_config.c), serves HTTP
-- (src/http_server.c, src/api_handlers.c), drives the LED
-- (src/led.c) and feeds the watchdog as long as core1's liveness counter moves. They meet in
-- src/shared_state.c only: machine state, two console logs, the G-code queue, realtime requests, the
-- heartbeat and the liveness counter, each function under one mutex.
--
-- Files and what they model:
--   Base, CString, Floats   lists over native numbers; C strings and the C library's string
--                           functions; `float` as an interface
--   SharedState             src/shared_state.c and src/shared_state.h: one module for each group
--                           of statics (Machine, Console, Filtered, Queue, Realtime, Heartbeat), the
--                           sizes in Sizes, all together in Shared
--   UsbHost                 src/usb_host_cdc.c: `tuh_cdc_rx_cb`, `tuh_cdc_mount_cb`, writes
--   GrblLink                src/grbl_link.c: statics in State, `parse_status_report` in Report,
--                           `on_line`, `on_mount` and `parse_gc_wcs` in Reply, a pass of
--                           `grbl_link_core1_main` in Pass; what a report says of the machine, field by
--                           field and apart from the parser, in Report/Print and Report/Says
--   Api                     src/api_handlers.c: `japp` and `json_escape_append` in Output,
--                           `handle_status` in Status, the JSON that it is to answer with in
--                           Status/Tree, `handle_gcode_post` in Gcode, the lines of
--                           a text apart from it in Gcode/Lines, the other handlers and
--                           `api_dispatch` in Dispatch
--   Json                    no code: a reader of JSON, by which the responses are judged
--   WifiConfig              src/wifi_config.c: the pending update; the record in flash, its checksum,
--                           load and save in Flash; `wifi_config_bringup` in Bringup
--   HttpServer              src/http_server.c: `http_conn_t` in Conn, `case_find` in Find,
--                           `send_more` and `begin_response` in Send, the request line that
--                           `build_and_send` reads in Request, lwIP's callbacks in Callbacks, a
--                           connection's life as a list of them in Callbacks/Run
--   Led                     src/led.c
--   Firmware                src/main.c: start-up, a pass of the loop, the watchdog; all stages of a
--                           WiFi update in Update, of a G-code program in Program, and of a
--                           poll of /api/status in StatusPoll; the access point's name, on which
--                           some results depend, in Names
--   System                  both cores at once: src/grbl_link.c's loop part by part, and between any
--                           two parts the calls that core0 makes of src/shared_state.c. A callback of
--                           `tuh_task` is one part, although `on_line` makes several calls in it
--
-- State is a record for each group of statics, and a C function is a function from the state to its
-- results and the new state. A call into TinyUSB, the SDK or lwIP is an argument: what a read
-- returns, how many bytes a write takes, what time it is. Times are microseconds in unbounded
-- numbers (the SDK has 64 bits of them); `uint32_t` and `size_t` wrap at 2^32. A text buffer is the
-- string that it holds, and `strncpy` into it cuts at its length; that buffers are never overrun is
-- stated where a length is computed. Bytes are numbers; a `char` is one of 0 to 255.
--
-- Loops are recursive on the list that they read or on the rounds that are left, so they end. Three
-- have fuel: the reader of JSON four steps for each byte and four more, of which the text of a value
-- takes fewer; the decimal printer n + 1 steps for the number n, which has fewer digits than that, and
-- the loop of `send_more` one step more than bytes are left, of which each step but the last sends at
-- least one.
--
-- Not modelled: the third-party DHCP and DNS servers; the browser's side in web/index.html; the
-- build. Messages on the debug console are left out, and the calls of lwIP and the SDK that answer
-- nothing (`tcp_recved`, `tcp_output`, registration of callbacks, initialisation). How floats are
-- rounded is left open: their arithmetic, their parser and their printer are parameters. The bytes of
-- `wifi_cfg_record_t` in flash are its fields; a record that was written is read back as it was.
pub mod Base
pub mod CString
pub mod Floats
pub mod SharedState
pub mod UsbHost
pub mod GrblLink
pub mod WifiConfig
pub mod HttpServer
pub mod Json
pub mod Api
pub mod Led
pub mod Firmware
pub mod System
