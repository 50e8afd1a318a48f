-- ===== src/Raft/Candidate.antt =====
-- src/raft/RaftCandidateState.ts. `now` is `Date.now()`, and `extra` is the random waiting time of
-- a follower that was a candidate.
pub mod Election
use hamok_ts.Prelude.{
  ℕ, ℤ, pos, pred_int, suc, ◌+◌, ◌*◌, String, Bool, true, false, not, Option, none, some, List, [],
  ◌∷◌, ◌++◌, if◌then◌else◌, ltb, leb, length, string_key,
}
use hamok_ts.JsMap
use hamok_ts.Raft.Messages.{
  RaftAppendEntriesRequestChunk, RaftAppendEntriesResponse, RaftVoteRequest, RaftVoteResponse,
}
use hamok_ts.Raft.Engine
use hamok_ts.Raft.Engine.{
  RaftEngine, CandidateState, LeaderState, Output, Action, ◌>>◌, skip, reading, set_props,
  put_candidate, set_state, leader, follower, sends_vote_request,
}
use hamok_ts.Raft.Follower.{new_follower}

-- `createRaftLeaderState` reads the term when it is called.
unfoldable pub new_leader : {E : Type 0} → RaftEngine E → LeaderState
new_leader e = record {
  current_term = e.props.current_term;
  sent_requests = [];
  unsynced_remote_peers = [];
}

-- `!started`: not set, or zero.
abbrev started_at : Option ℕ → Option ℕ
started_at none = none
started_at (some t) = if ltb 0 t then some t else none

module _ {E : Type 0} where
  -- `follow`.
  unfoldable pub candidate_follow : ℕ → ℕ → Action E
  unfolding new_follower
  candidate_follow now extra = reading λ e. set_state (follower (new_follower now (some extra) e))

  -- `lead`.
  unfoldable pub lead : ℕ → ℕ → CandidateState → Action E
  unfolding candidate_follow new_leader
  lead now extra c e =
      if leb c.election_term e.props.current_term
      then candidate_follow now extra e
      else if ltb (suc e.props.current_term) c.election_term
      then candidate_follow now extra e
      else (set_props (λ p. record p { current_term = c.election_term })
            >> reading (λ e'. set_state (leader (new_leader e'))))
          e

  -- `appendEntriesRequestListener`: an unknown peer is only logged.
  unfoldable pub candidate_on_append_request :
      ℕ → ℕ → RaftAppendEntriesRequestChunk E → CandidateState → Action E
  unfolding candidate_follow
  candidate_on_append_request now extra chunk c =
      if ltb chunk.term c.election_term then skip else candidate_follow now extra

  -- The other two listeners only log.
  unfoldable pub candidate_on_append_response : RaftAppendEntriesResponse → Action E
  candidate_on_append_response r = skip

  unfoldable pub candidate_on_vote_request : RaftVoteRequest → Action E
  candidate_on_vote_request r = skip

  -- A vote is counted, and the election is won with more than half of the peers.
  unfoldable pub count_vote : ℕ → ℕ → RaftVoteResponse → CandidateState → Action E
  unfolding lead
  count_vote now extra r c e =
      let votes : List String = JsMap.add r.source_peer_id c.received_votes in
      let elected : Bool = ltb (suc (length e.remote_peers)) (length votes * 2) in
      let c' : CandidateState = record c {
        responded_remote_peer_ids = JsMap.add r.source_peer_id c.responded_remote_peer_ids;
        received_votes = votes;
        elected = elected;
      } in
      (put_candidate c' >> (if elected then lead now extra c' else skip)) e

  -- `voteResponseListener`.
  unfoldable pub on_vote_response : ℕ → ℕ → RaftVoteResponse → CandidateState → Action E
  unfolding count_vote candidate_follow
  on_vote_response now extra r c e =
      if not (JsMap.member r.source_peer_id e.remote_peers)
      then (e, [])
      else if ltb c.election_term r.term
      then candidate_follow now extra e
      else if ltb r.term c.election_term
      then (e, [])
      else if not r.vote_granted
      then put_candidate
          (record c {
            responded_remote_peer_ids = JsMap.add r.source_peer_id c.responded_remote_peer_ids;
          })
          e
      else count_vote now extra r c e

  abbrev vote_request : CandidateState → RaftEngine E → String → RaftVoteRequest
  vote_request c e peer = record {
    term = c.election_term;
    last_log_index = pred_int (pos e.logs.next_index);
    last_log_term = e.props.current_term;
    peer_id = peer;
    candidate_id = e.config.peer_id;
  }

  -- The loop over the remote peers: a request to each that has none yet.
  unfoldable pub request_votes :
      CandidateState → RaftEngine E → List String → List String → List String × List (Output E)
  request_votes c e [] notified = (notified, [])
  request_votes c e (peer ∷ peers) notified =
      let known : Bool = JsMap.member peer notified in
      let (all, outputs) =
        request_votes c e peers (if known then notified else JsMap.add peer notified) in
      (all, if known then outputs else sends_vote_request (vote_request c e peer) ∷ outputs)

  unfoldable pub check_timeout : ℕ → ℕ → CandidateState → Action E
  unfolding candidate_follow
  check_timeout now extra c e = elim (started_at c.started) [
    | none ↦ put_candidate (record c { started = some now }) e
    | some t ↦
        if ltb (t + e.config.election_timeout_in_ms) now
        then candidate_follow now extra e
        else (e, [])
  ]

  -- `run`.
  unfoldable pub run_candidate : ℕ → ℕ → CandidateState → Action E
  unfolding request_votes check_timeout
  run_candidate now extra c e =
      let (notified, outputs) = request_votes c e e.remote_peers c.notified_remote_peers in
      let c' : CandidateState = record c { notified_remote_peers = notified } in
      if c.elected
      then (e, [])
      else ((λ (e' : RaftEngine E). (record e' { state = Engine.candidate c' }, outputs))
            >> check_timeout now extra c')
          e
