-- ===== src/Policy.antt =====
-- policy-utils: the global policy of a computation.
pub mod Principal
pub mod Expiry
pub mod Contract
pub mod Validity
pub mod Rights
pub mod Inputs
