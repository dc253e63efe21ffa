-- ===== src/HttpServer.antt =====
-- src/http_server.c: HTTP/1.0 over lwIP's callbacks, one request a connection. What lwIP answers is
-- an argument: the room in the send buffer, whether a write is taken, whether a close succeeds.
pub mod Find
pub mod Conn
pub mod Send
pub mod Request
pub mod Callbacks
pub mod Examples
