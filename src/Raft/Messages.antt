-- ===== src/Raft/Messages.antt =====
-- src/messages/messagetypes/RaftAppendEntries.ts and RaftVote.ts.
use hamok_ts.Prelude.{ℕ, ℤ, String, Bool, Option}
use hamok_ts.Message.{HamokMessage}

pub record RaftAppendEntriesRequestChunk (E : Type 0) : Type 0 where
  pub request_id : String
  pub peer_id : String
  pub leader_id : Option String
  pub leader_commit : ℤ
  pub leader_next_index : ℤ
  pub prev_log_index : ℤ
  pub prev_log_term : ℤ
  pub term : ℕ
  pub sequence : ℕ
  pub last_message : Bool
  pub entry : Option (HamokMessage E)

pub record RaftAppendEntriesResponse : Type 0 where
  pub request_id : String
  pub source_peer_id : String
  pub destination_peer_id : Option String
  pub term : ℕ
  pub success : Bool
  pub peer_next_index : ℤ
  pub processed : Bool

pub record RaftVoteRequest : Type 0 where
  pub term : ℕ
  pub last_log_index : ℤ
  pub last_log_term : ℕ
  pub peer_id : String
  pub candidate_id : String

pub record RaftVoteResponse : Type 0 where
  pub term : ℕ
  pub vote_granted : Bool
  pub destination_peer_id : String
  pub source_peer_id : String

-- `createResponse` of a chunk.
unfoldable pub append_response :
    {E : Type 0} → RaftAppendEntriesRequestChunk E → Bool → ℤ → Bool → RaftAppendEntriesResponse
append_response c success peer_next_index processed = record {
  request_id = c.request_id;
  source_peer_id = c.peer_id;
  destination_peer_id = c.leader_id;
  term = c.term;
  success = success;
  peer_next_index = peer_next_index;
  processed = processed;
}

-- `createResponse` of a vote request.
unfoldable pub vote_response : RaftVoteRequest → Bool → RaftVoteResponse
vote_response r granted = record {
  term = r.term;
  vote_granted = granted;
  destination_peer_id = r.candidate_id;
  source_peer_id = r.peer_id;
}
