-- ===== src/Api.antt =====
-- src/api_handlers.c: the REST API. `Output` is the response buffer, `Status`, `Gcode` and `Wifi`
-- the handlers, `Dispatch` the routes.
pub mod Output
pub mod Status
pub mod Gcode
pub mod Dispatch
