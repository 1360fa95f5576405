-- ===== src/Jose.antt =====
-- identity_jose: JSON Web Keys and JSON Web Signatures.
pub mod Types
pub mod Params
pub mod Jwk
