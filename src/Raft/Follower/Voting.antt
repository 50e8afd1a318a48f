-- ===== src/Raft/Follower/Voting.antt =====
-- How a follower of src/raft/RaftFollowerState.ts votes.
use hamok_ts.Prelude.{
  ℕ, suc, ◌+◌, ◌≤◌, ◌<◌, ◌≡◌, ◌≢◌, refl, sym, String, true, false, none, some, List, [], ◌∷◌, ◌⊎◌,
  arith, count_to,
}
use hamok_ts.Raft.Messages.{RaftVoteRequest, vote_response}
use hamok_ts.Raft.Engine.{
  RaftEngine, FollowerState, CandidateState, Output, sends_vote_response, candidate, follower,
  set_state, set_leader_id,
}
use hamok_ts.Raft.Follower.{on_vote_request, run_follower, new_candidate, waiting_time}

module _ {E : Type 0} where
  -- The answer that grants a request.
  abbrev pub granted : RaftVoteRequest → List (Output E)
  granted r = sends_vote_response (vote_response r true) ∷ []

  -- A follower grants a vote only for a term above its own, to a candidate whose log reaches the
  -- follower's commit index, unless that index is 0 or -1, and only if it has given its vote to no
  -- other candidate; it then has given it to this one.
  pub on_vote_request_grants :
      (now : ℕ) (r : RaftVoteRequest) (f : FollowerState E) (e : RaftEngine E)
      → (on_vote_request now r f e).1 ≡ granted r
      → (e.props.current_term < r.term)
        × ((e.logs.committed ≤ 1) ⊎ (e.logs.committed ≤ count_to r.last_log_index))
        × ((e.props.voted_for ≡ none) ⊎ (e.props.voted_for ≡ some r.candidate_id))
        × ((on_vote_request now r f e).0.props.voted_for ≡ some r.candidate_id)
  unfolding on_vote_request vote_response
  on_vote_request_grants now r f e h = (ground arith, ground arith, ground arith, ground arith)

  -- With a vote given away, no other candidate gets one.
  voted_denies :
      (now : ℕ) (r : RaftVoteRequest) (f : FollowerState E) (e : RaftEngine E) (id : String)
      → e.props.voted_for ≡ some id
      → id ≢ r.candidate_id
      → (on_vote_request now r f e).1 ≢ granted r
  unfolding on_vote_request vote_response
  voted_denies now r f e id voted other h = ground arith

  run_follower-candidate :
      (now : ℕ) (f : FollowerState E) (e : RaftEngine E)
      → f.updated + (e.config.follower_max_idle_in_ms + waiting_time f) < now
      → e.remote_peers ≢ []
      → e.config.only_follower ≡ false
      → e.state ≡ follower f
      → ((run_follower now f e).0.state
          ≡ candidate (new_candidate e.config.peer_id (suc e.props.current_term)))
        × ((run_follower now f e).0.props.voted_for ≡ none)
        × ((run_follower now f e).0.props.current_term ≡ e.props.current_term)
  unfolding run_follower set_state set_leader_id
  run_follower-candidate now f e late peers may st = ground arith

  on_vote_request_frame :
      (now : ℕ) (r : RaftVoteRequest) (f : FollowerState E) (e : RaftEngine E)
      → ((on_vote_request now r f e).0.config ≡ e.config)
        × ((on_vote_request now r f e).0.remote_peers ≡ e.remote_peers)
        × ((on_vote_request now r f e).0.props.current_term ≡ e.props.current_term)
  unfolding on_vote_request
  on_vote_request_frame now r f e = ground arith

  -- A follower that grants its vote for the term after its own to a candidate, and whose timer
  -- then runs out, becomes, if it has remote peers and may lead, a candidate for that same term
  -- with its own vote, and the vote that it gave is forgotten.
  pub votes_twice :
      (now later : ℕ) (r : RaftVoteRequest) (f g : FollowerState E) (e : RaftEngine E)
      → r.term ≡ suc e.props.current_term
      → (on_vote_request now r f e).1 ≡ granted r
      → (on_vote_request now r f e).0.state ≡ follower g
      → g.updated + (e.config.follower_max_idle_in_ms + waiting_time g) < later
      → e.remote_peers ≢ []
      → e.config.only_follower ≡ false
      → let voted = (on_vote_request now r f e).0 in
        let run = (run_follower later g voted).0 in
        (voted.props.voted_for ≡ some r.candidate_id)
        × (run.props.voted_for ≡ none)
        × ((c : CandidateState) × (run.state ≡ candidate c)
            × (c.election_term ≡ r.term)
            × (c.received_votes ≡ e.config.peer_id ∷ []))
  unfolding new_candidate
  votes_twice now later r f g e next grant st late peers may =
      let voted = (on_vote_request now r f e).0 in
      let frame = on_vote_request_frame now r f e in
      let run =
        run_follower-candidate later g voted (rw (frame.0) late) (rw (frame.1) peers)
          (rw (frame.0) may) st in
      (
        (on_vote_request_grants now r f e grant).3,
        run.1,
        (
          new_candidate voted.config.peer_id (suc voted.props.current_term),
          run.0,
          rw (frame.2) (sym next),
          rw (frame.0) refl,
        ),
      )
