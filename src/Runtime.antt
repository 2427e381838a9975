-- ===== src/Runtime.antt =====
-- runtime-manager/src/managers: the state that answers the requests of clients.
pub mod Protocol
pub mod Dispatch
pub mod Incoming
pub mod Chunks
pub mod Sessions
pub mod Guards
pub mod Strangers
pub mod Soundness
