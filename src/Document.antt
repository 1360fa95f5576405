-- ===== src/Document.antt =====
-- identity_document and identity_verification: DID Documents.
pub mod Query
pub mod Method
pub mod CoreDocument
