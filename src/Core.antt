-- ===== src/Core.antt =====
-- The collections of identity_core/src/common.
pub mod OrderedSet
pub mod OneOrSet
pub mod OneOrMany
pub mod Timestamp
