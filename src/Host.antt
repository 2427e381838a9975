-- ===== src/Host.antt =====
-- execution-engine/src/wasi: the calls of a program, between its linear memory and the file system.
pub mod Memory
pub mod Wrapper
pub mod Calls
pub mod Bounds
pub mod Queries
pub mod Frame
pub mod Safety
pub mod Listing
pub mod Sockets
pub mod Traces
pub mod Inquiries
