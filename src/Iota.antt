-- ===== src/Iota.antt =====
-- identity_iota_core: the DIDs of the method `iota` and the payload of state metadata.
pub mod NetworkName
pub mod IotaDid
pub mod StateMetadata
pub mod Placeholder
