-- ===== src/Transport.antt =====
-- transport-protocol/: the messages between the parties, their framing and the buffers of chunks.
pub mod Numbers
pub mod Sgx
pub mod Messages
pub mod Framing
pub mod Reassembly
pub mod Serializing
pub mod Parsing
pub mod Roundtrip
