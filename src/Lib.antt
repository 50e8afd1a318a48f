-- ===== src/Lib.antt =====
-- hamok-ts: objects that are replicated over peers by a Raft log. A peer's engine keeps a log, is a
-- follower, a candidate or the leader, and exchanges messages with the other peers. What the log
-- commits reaches the collections, which apply it in the order of the log.
--
-- Files, with the code that they model:
--   Prelude      shared helpers: tests on numbers, lists, options, and the integers of the messages
--   JsMap        the Map and Set of JavaScript, as lists in the order of insertion
--   Common       src/common/Collections.ts: Maps, Sets and Grouping
--   Message      src/messages/HamokMessage.ts: the record of the wire message
--   Messages/Types       src/messages/messagetypes: the messages of the storages and of the grid
--   Messages/HamokCodec  src/common/HamokCodec.ts: codecs, and arrays of encoded keys and values
--   Messages/Storage     src/messages/StorageCodec.ts: an encoder and a decoder for each message
--   Messages/StorageCodec    the same file: the choice of the encoder and of the decoder
--   Messages/GridCodec   src/messages/HamokGridCodec.ts
--   Requests     src/messages/ResponseChunker.ts, PendingResponse.ts, PendingRequest.ts, and
--                OngoingRequestsNotifier.ts in Requests/OngoingRequests
--   Work         src/common/ConcurrentExecutor.ts and WaitingQueue.ts
--   Logs         src/raft/MemoryStoredRaftLogs.ts: submit, compareAndOverride, compareAndAdd, reset;
--                Logs/Collection has collectEntries and the iterator (uncommitted), Logs/Commit commitUntil,
--                Logs/Purge has removeUntil and _expire. The other files below Logs are proofs
--   Raft/Messages    src/messages/messagetypes/RaftAppendEntries.ts and RaftVote.ts
--   Raft/Assembly    src/raft/RaftAppendEntriesRequest.ts, a request put together from its chunks
--   Raft/Engine      src/raft/RaftEngine.ts, SyncedProperties.ts, RaftState.ts, RaftEmptyState.ts
--   Raft/Follower    src/raft/RaftFollowerState.ts: on_append_request, on_vote_request, run_follower
--   Raft/Candidate   src/raft/RaftCandidateState.ts: on_vote_response, run_candidate, lead
--   Raft/Leader      src/raft/RaftLeaderState.ts: on_append_response; run_leader in
--                    Raft/Leader/Replication
--   Raft/Node        a peer: each message and the timer go to the listeners of its state; below it,
--                    Lifetime has the states that a peer reaches
--   Raft/Emitter     src/messages/RaftMessageEmitter.ts: send, receive, encoders and decoders
--   Collections/BaseMap  src/collections/BaseMap.ts: the map in memory
--   Collections/Queue    src/collections/HamokQueue.ts: the handlers of the replicated queue
--   Collections/Map      src/collections/HamokMap.ts: the handlers of the replicated map
--   Collections/Record   src/collections/HamokRecord.ts: the handlers of the replicated record
--   Collections/PlainObject  its object, with what it inherits from its prototype
--   Collections/Subscriptions  src/collections/HamokEmitter.ts: the subscriptions of the replicated emitter and
--                        the handlers that change them
--   Collections/Emitter  src/collections/HamokEmitter.ts: the events that are published and received
--   Collections/Connection   src/collections/HamokConnection.ts: accept, the end of joining, and the
--                        change of the leader
--   Tests        runs of the theorems at concrete values
--
-- State and time. A listener, a timer and a setter is a function of the state that gives the new
-- state and what is sent and emitted, in order. The clock, the random waiting time, the request ids
-- and the order of peer ids by localeCompare are arguments. An error that is thrown is a value.
--
-- Numbers. _commitIndex starts at -1: `committed` is _commitIndex + 1, and the argument of
-- commit_until is the requested commit index plus one. Indices and terms of messages that may be
-- -1 are integers; _term and _endSeq of a request are none where the source has -1. Where a
-- request has more entries than its leader's next index, the follower stores them under negative
-- keys: `below` of the log has them, override_below and store_below write there, and collect_from
-- reads there for a leader whose next index of a peer is negative. Numbers have no upper bound
-- here; the source's are exact up to 2^53.
--
-- Loops are functions of the number of rounds that are left, which the caller computes from the
-- bounds of the source's loop, so that no round is missing: commit_loop from the requested index,
-- remove_loop, expire_scan and expire_loop from the commit index or the expired index, collect from
-- the end index. The generators of ResponseChunker may not end: chunk_by_keys and chunk_by_entries give
-- none where the rounds do not suffice, and as many rounds as there are keys do, if the limits are not 0.
--
-- Interaction. A message of a storage is made by Messages/StorageCodec, cut into chunks by
-- Requests/ResponseChunker if it is a response, and put together by Requests/PendingResponse. A request
-- goes into the log of Raft; what the log commits goes to Collections/Connection, which applies it once
-- and in order, and its events to Collections/Map, Record or Queue. The codecs of keys, values and
-- strings are parameters, and so are what a plain object inherits and what an assignment to its
-- __proto__ does, truthiness, the comparison of values and the id of the local peer.
--
-- Not modelled: logging; the protobuf runtime; the transport between peers; promises and timers of
-- src/Hamok.ts and src/HamokGrid.ts; the methods of the collections and of their connection that send
-- requests; subscribing to an emitter; the remote map; the platform's codecs of numbers, strings and
-- JSON.
mod Prelude
pub mod JsMap
pub mod Common
pub mod Message
pub mod Messages
pub mod Requests
pub mod Work
pub mod Logs
pub mod Raft
pub mod Collections
mod Tests
