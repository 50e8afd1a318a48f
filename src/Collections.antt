-- ===== src/Collections.antt =====
-- src/collections: the replicated collections and their connection. `BaseMap` has the map in memory that
-- they keep their entries in.
pub mod BaseMap
pub mod PlainObject
pub mod Queue
pub mod Map
pub mod Record
pub mod Subscriptions
pub mod Emitter
pub mod Connection
