-- ===== src/Messages/Types.antt =====
-- src/messages/messagetypes: the messages of the storage protocol. A set is a list, a map a
-- JsMap; `prevValue` and an endpoint id that may be undefined are options.
pub mod Queries
pub mod Removals
pub mod Insertions
pub mod States
pub mod Grid
