-- ===== src/Credential.antt =====
-- Credentials and their validation: identity_credential/src.
pub mod Types
pub mod Structure
pub mod Claims
pub mod RevocationBitmap
pub mod BitmapStatus
pub mod Validation
