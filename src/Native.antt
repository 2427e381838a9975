-- ===== src/Native.antt =====
-- execution-engine/src/native_modules: the services that are installed in the file system.
pub mod Modules
pub mod Safety
