-- ===== src/Raft/Emitter.antt =====
-- src/messages/RaftMessageEmitter.ts: how the four messages of Raft are put into a HamokMessage
-- and read from one. The entry of a chunk is the embedded message, so that a chunk with entries
-- over `E` becomes a message that embeds messages over `E`.
pub mod RoundTrip
use hamok_ts.Prelude.{
  ℕ, ℤ, pos, negsuc, minus_one, Bool, true, false, Option, none, some, List, [], ◌∷◌, or_else,
}
use hamok_ts.Message.{
  HamokMessage, MessageType, empty_message, raft_vote_request, raft_vote_response,
  raft_append_entries_request_chunk, raft_append_entries_response, raft_communication_protocol,
}
use hamok_ts.Messages.Decoding.{Decoded, decoded, throws, untyped, asserted, natural, map_decoded}
use hamok_ts.Raft.Messages.{
  RaftAppendEntriesRequestChunk, RaftAppendEntriesResponse, RaftVoteRequest, RaftVoteResponse,
}
use hamok_ts.Raft.Node.{Event, append_request, append_response, vote_request, vote_response, timer}

module _ {E : Type 0} where
  unfoldable pub encode_vote_request : RaftVoteRequest → HamokMessage (HamokMessage E)
  encode_vote_request r = record (empty_message) {
    protocol = some raft_communication_protocol;
    type = some raft_vote_request;
    raft_term = some r.term;
    raft_prev_log_index = some r.last_log_index;
    raft_prev_log_term = some (pos r.last_log_term);
    destination_id = some r.peer_id;
    raft_candidate_id = some r.candidate_id;
  }

  read_vote_request : HamokMessage (HamokMessage E) → Decoded RaftVoteRequest
  read_vote_request m = asserted m.raft_term (λ term. asserted m.raft_prev_log_index (λ index.
      asserted m.raft_prev_log_term (λ log_term. natural log_term (λ log_term.
        asserted m.destination_id (λ peer. asserted m.raft_candidate_id (λ candidate.
          decoded (record {
            term = term;
            last_log_index = index;
            last_log_term = log_term;
            peer_id = peer;
            candidate_id = candidate;
          })))))))

  read_vote_request_if :
      Option MessageType → HamokMessage (HamokMessage E) → Decoded RaftVoteRequest
  unfolding read_vote_request
  read_vote_request_if (some raft_vote_request) m = read_vote_request m
  read_vote_request_if _ m = throws

  unfoldable pub decode_vote_request : HamokMessage (HamokMessage E) → Decoded RaftVoteRequest
  unfolding read_vote_request_if
  decode_vote_request m = read_vote_request_if m.type m

  unfoldable pub encode_vote_response : RaftVoteResponse → HamokMessage (HamokMessage E)
  encode_vote_response r = record (empty_message) {
    protocol = some raft_communication_protocol;
    type = some raft_vote_response;
    raft_term = some r.term;
    success = some r.vote_granted;
    destination_id = some r.destination_peer_id;
    source_id = some r.source_peer_id;
  }

  read_vote_response : Option MessageType → HamokMessage (HamokMessage E) → Decoded RaftVoteResponse
  read_vote_response (some raft_vote_response) m = asserted m.raft_term (λ term.
      asserted m.destination_id (λ destination. asserted m.source_id (λ source. decoded (record {
        term = term;
        vote_granted = or_else m.success false;
        destination_peer_id = destination;
        source_peer_id = source;
      }))))
  read_vote_response _ m = throws

  unfoldable pub decode_vote_response : HamokMessage (HamokMessage E) → Decoded RaftVoteResponse
  unfolding read_vote_response
  decode_vote_response m = read_vote_response m.type m

  abbrev embedded : Option (HamokMessage E) → List (HamokMessage E)
  embedded none = []
  embedded (some m) = m ∷ []

  unfoldable pub encode_append_request :
      RaftAppendEntriesRequestChunk E → HamokMessage (HamokMessage E)
  encode_append_request c = record (empty_message) {
    protocol = some raft_communication_protocol;
    type = some raft_append_entries_request_chunk;
    request_id = some c.request_id;
    destination_id = some c.peer_id;
    raft_leader_id = c.leader_id;
    raft_commit_index = some c.leader_commit;
    raft_leader_next_index = some c.leader_next_index;
    raft_prev_log_index = some c.prev_log_index;
    raft_prev_log_term = some c.prev_log_term;
    raft_term = some c.term;
    sequence = some c.sequence;
    last_message = some c.last_message;
    embedded_messages = embedded c.entry;
  }

  read_chunk :
      HamokMessage (HamokMessage E)
      → Option (HamokMessage E)
      → Decoded (RaftAppendEntriesRequestChunk E)
  read_chunk m entry = asserted m.request_id (λ id. asserted m.destination_id (λ peer.
      asserted m.raft_term (λ term. decoded (record {
        request_id = id;
        peer_id = peer;
        leader_id = m.raft_leader_id;
        leader_commit = or_else m.raft_commit_index minus_one;
        leader_next_index = or_else m.raft_leader_next_index minus_one;
        prev_log_index = or_else m.raft_prev_log_index minus_one;
        prev_log_term = or_else m.raft_prev_log_term minus_one;
        term = term;
        sequence = or_else m.sequence 0;
        last_message = or_else m.last_message false;
        entry = entry;
      }))))

  -- A chunk carries at most one entry.
  read_entry :
      List (HamokMessage E)
      → HamokMessage (HamokMessage E)
      → Decoded (RaftAppendEntriesRequestChunk E)
  unfolding read_chunk
  read_entry [] m = read_chunk m none
  read_entry (entry ∷ []) m = read_chunk m (some entry)
  read_entry (entry ∷ other ∷ rest) m = throws

  read_append_request :
      Option MessageType → HamokMessage (HamokMessage E) → Decoded (RaftAppendEntriesRequestChunk E)
  unfolding read_entry
  read_append_request (some raft_append_entries_request_chunk) m = read_entry m.embedded_messages m
  read_append_request _ m = throws

  unfoldable pub decode_append_request :
      HamokMessage (HamokMessage E) → Decoded (RaftAppendEntriesRequestChunk E)
  unfolding read_append_request
  decode_append_request m = read_append_request m.type m

  unfoldable pub encode_append_response : RaftAppendEntriesResponse → HamokMessage (HamokMessage E)
  encode_append_response r = record (empty_message) {
    protocol = some raft_communication_protocol;
    type = some raft_append_entries_response;
    request_id = some r.request_id;
    source_id = some r.source_peer_id;
    destination_id = r.destination_peer_id;
    raft_term = some r.term;
    success = some r.success;
    raft_peer_next_index = some r.peer_next_index;
    last_message = some r.processed;
  }

  read_append_response :
      Option MessageType → HamokMessage (HamokMessage E) → Decoded RaftAppendEntriesResponse
  read_append_response (some raft_append_entries_response) m = asserted m.request_id (λ id.
      asserted m.source_id (λ source. asserted m.raft_term (λ term.
        asserted m.raft_peer_next_index (λ next. decoded (record {
          request_id = id;
          source_peer_id = source;
          destination_peer_id = m.destination_id;
          term = term;
          success = or_else m.success false;
          peer_next_index = next;
          processed = or_else m.last_message false;
        })))))
  read_append_response _ m = throws

  unfoldable pub decode_append_response :
      HamokMessage (HamokMessage E) → Decoded RaftAppendEntriesResponse
  unfolding read_append_response
  decode_append_response m = read_append_response m.type m

  -- `send`: the timer is no message.
  unfoldable pub send : Event E → Option (HamokMessage (HamokMessage E))
  unfolding encode_vote_request encode_vote_response encode_append_request encode_append_response
  send (vote_request r) = some (encode_vote_request r)
  send (vote_response r) = some (encode_vote_response r)
  send (append_request c) = some (encode_append_request c)
  send (append_response r) = some (encode_append_response r)
  send timer = none

  unfoldable pub receive_as : Option MessageType → HamokMessage (HamokMessage E) → Decoded (Event E)
  unfolding decode_vote_request decode_vote_response decode_append_request decode_append_response
  receive_as (some raft_vote_request) m = map_decoded vote_request (decode_vote_request m)
  receive_as (some raft_vote_response) m = map_decoded vote_response (decode_vote_response m)
  receive_as (some raft_append_entries_request_chunk) m =
      map_decoded append_request (decode_append_request m)
  receive_as (some raft_append_entries_response) m =
      map_decoded append_response (decode_append_response m)
  receive_as _ m = throws

  -- `receive`.
  unfoldable pub receive : HamokMessage (HamokMessage E) → Decoded (Event E)
  unfolding receive_as
  receive m = receive_as m.type m
