-- ===== src/Identity.antt =====
-- modules/identitymap/src/identitymap.c: a module that maps MAC addresses to device ids and back.
pub mod Config
pub mod Tables
pub mod Maps
pub mod Create
pub mod Canonical
pub mod Receive
pub mod Creation
pub mod Lifetime
pub mod Valid
pub mod Changes
pub mod Publishing
pub mod Wanted
pub mod Receiving
pub mod Received
pub mod Capable
pub mod Delivers
pub mod Answers
pub mod Configured
pub mod Sorting
pub mod Samples
mod Tests
