-- ===== src/Vfs.antt =====
pub mod Impl
pub mod Entry
pub mod Table
pub mod Handle
pub mod File
pub mod Directory
pub mod Public
pub mod Integrity
pub mod Soundness
pub mod Mediation
pub mod Roundtrip
pub mod Opening
pub mod Limits
