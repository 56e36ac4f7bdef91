-- ===== src/Loader.antt =====
-- The module loader, core/src/module_loader.c.
pub mod Load
pub mod Loaded
pub mod Tests
