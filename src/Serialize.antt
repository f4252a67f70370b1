-- ===== src/Serialize.antt =====
-- serialize/: the actions that flatten an object to bytes and rebuild it from them.
pub mod Buffer
pub mod Field
pub mod Marshal
pub mod Unmarshal
pub mod RoundTrip
pub mod Copy
pub mod KeySerialize
mod Tests
