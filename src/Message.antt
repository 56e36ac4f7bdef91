-- ===== src/Message.antt =====
-- core/src/message.c: gateway messages, their reference counts and their byte array form.
pub mod Shared
pub mod Handle
pub mod Parse
pub mod Serialize
pub mod Encoding
pub mod Reading
pub mod Safety
pub mod Writing
pub mod Forms
pub mod RoundTrip
pub mod Body
pub mod Accept
pub mod Canonical
pub mod References
pub mod Samples
mod Tests
