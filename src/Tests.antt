-- ===== src/Tests.antt =====
-- The theorems at concrete inputs.
pub mod Data
mod Sets
mod Dids
pub mod Documents
mod StatusLists
pub mod Keys
pub mod Storage
mod KeyStores
pub mod Bitmaps
mod Credentials
mod Iota
mod Resolvers
