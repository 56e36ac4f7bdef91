-- ===== src/Events.antt =====
-- core/src/internal/event_system.c: the registered callbacks, the queue of reports and the thread
-- that makes the calls.
pub mod State
pub mod Init
pub mod Report
pub mod Worker
pub mod Destroy
pub mod Startup
pub mod Handles
pub mod Threads
pub mod Order
pub mod Rows
pub mod Errored
pub mod Ending
mod Tests
