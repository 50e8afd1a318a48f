-- ===== src/Raft.antt =====
-- src/raft: the Raft engine of a peer. `Messages` has the message types, `Assembly` the request
-- that a follower puts together from its chunks, `Engine` the shared state, and each of
-- `Follower`, `Candidate` and `Leader` the listeners and the timer of a state.
pub mod Messages
pub mod Assembly
pub mod Engine
pub mod Follower
pub mod Candidate
pub mod Leader
pub mod Node
pub mod Emitter
