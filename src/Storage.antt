-- ===== src/Storage.antt =====
-- The components of storage/.
pub mod DurableObjectCache
