-- ===== src/Util.antt =====
-- util/: the data structures of the library.
pub mod Base16
pub mod SparseArray
pub mod SparseBitmap
pub mod TokenBucket
pub mod Uri
pub mod Cache
pub mod InitSequencer
