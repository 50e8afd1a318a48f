-- ===== src/Raft/Candidate/Election.antt =====
-- How a candidate of src/raft/RaftCandidateState.ts wins its election.
use hamok_ts.Prelude.{string_key, ℕ, suc, ◌*◌, ◌<◌, ◌≡◌, true, arith, length}
use hamok_ts.JsMap
use hamok_ts.Raft.Messages.{RaftVoteResponse}
use hamok_ts.Raft.Engine.{
  RaftEngine, CandidateState, LeaderState, candidate, leader, set_state, set_leader_id,
}
use hamok_ts.Raft.Candidate.{on_vote_response}

module _ {E : Type 0} where
  -- A candidate turns leader on an answer only if this is a vote, of a known peer and for the
  -- election term, with which more than half of the peers have voted for it; the election term is
  -- then the term after the engine's, and becomes its term and the leader's.
  pub on_vote_response-leader :
      (now extra : ℕ) (r : RaftVoteResponse) (c : CandidateState) (e : RaftEngine E)
      (l : LeaderState)
      → e.state ≡ candidate c
      → (on_vote_response now extra r c e).0.state ≡ leader l
      → (r.vote_granted ≡ true)
        × (JsMap.member r.source_peer_id e.remote_peers ≡ true)
        × (r.term ≡ c.election_term)
        × (suc (length e.remote_peers) < length (JsMap.add r.source_peer_id c.received_votes) * 2)
        × (c.election_term ≡ suc e.props.current_term)
        × ((on_vote_response now extra r c e).0.props.current_term ≡ c.election_term)
        × (l.current_term ≡ c.election_term)
  unfolding on_vote_response set_state set_leader_id
  on_vote_response-leader now extra r c e l st h = ground arith
