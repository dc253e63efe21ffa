-- ===== src/GrblLink.antt =====
-- src/grbl_link.c: core1's side of the link to grblHAL. `State` is its statics, `Report` parses
-- the status reports, `Reply` handles a received line, `Pass` is one pass of core1's main loop.
pub mod State
pub mod Report
pub mod Reply
pub mod Pass
