-- ===== src/Broker.antt =====
-- core/src/broker.c: the message broker over nanomsg sockets, with one worker thread for a module.
pub mod World
pub mod State
pub mod Create
pub mod Modules
pub mod Links
pub mod Publish
pub mod Worker
pub mod Resources
pub mod Attach
pub mod Routing
pub mod Occurrences
pub mod Subscriptions
pub mod Detach
pub mod Topics
pub mod Listening
pub mod Frames
pub mod Quit
pub mod Delivery
pub mod Samples
mod Tests
