-- ===== src/Did.antt =====
-- identity_did: decentralized identifiers and DID Urls.
pub mod Chars
pub mod CoreDid
pub mod RelativeUrl
pub mod DidUrl
