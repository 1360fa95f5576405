-- ===== src/Storage.antt =====
-- identity_storage: key stores, and the methods of a document whose keys they hold.
pub mod Traits
pub mod Digest
pub mod JwkMemStore
pub mod KeyIdMemstore
pub mod DocumentExt
