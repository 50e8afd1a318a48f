-- ===== src/Messages.antt =====
-- The messages between the storages of the peers: src/messages and src/common/HamokCodec.ts.
pub mod Decoding
pub mod Types
pub mod HamokCodec
pub mod Storage
pub mod StorageCodec
pub mod GridCodec
