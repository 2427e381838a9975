-- ===== src/Session.antt =====
-- session-manager/: the TLS configuration that follows from the policy, and the sessions with
-- clients.
pub mod Tls
pub mod Context
pub mod Connection
pub mod Clients
pub mod Configuration
pub mod Sending
