-- ===== src/Messages/Storage.antt =====
-- src/messages/StorageCodec.ts: the encoder and the decoder of each message of the storage protocol.
pub mod Clearing
pub mod Reading
pub mod Deleting
pub mod Removing
pub mod Inserting
pub mod Updating
pub mod Noting
