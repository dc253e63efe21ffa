-- ===== src/SharedState.antt =====
-- src/shared_state.h and src/shared_state.c: the state that core0 and core1 share, a component
-- for each of its mutexes. Each function of the source holds its mutex from its first to its last
-- statement, so it is one step, a function on its component's record.
pub mod Sizes
pub mod Machine
pub mod Console
pub mod Filtered
pub mod Queue
pub mod Realtime
pub mod Heartbeat
pub mod Shared
