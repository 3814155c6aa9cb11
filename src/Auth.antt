-- ===== src/Auth.antt =====
-- crates/quicsync-core/src/auth.rs: DER and certificates in the children Der and Certificate, the
-- grants and the pin check in Grants.
pub mod Der
pub mod Certificate
pub mod Grants
