-- ===== src/Raft/Node/Terms.antt =====
-- The term of a peer over the steps of its engine.
use hamok_ts.Prelude.{string_key, ℕ, ◌≤◌, ◌≡◌, refl, arith}
use hamok_ts.Raft.Messages.{RaftAppendEntriesRequestChunk, RaftVoteResponse}
use hamok_ts.Raft.Engine.{
  RaftEngine, RaftState, CandidateState, follower, candidate, leader, set_leader_id, set_state,
}
use hamok_ts.Raft.Candidate.{
  candidate_on_append_request, candidate_on_append_response, candidate_on_vote_request,
  on_vote_response, run_candidate,
}
use hamok_ts.Raft.Node.{
  Event, Environment, deliver, step, append_request, append_response, vote_request, vote_response,
  timer,
}
use hamok_ts.Raft.Engine.Terms.{TermNoted, Keeps}
use hamok_ts.Raft.Follower.Terms.{
  on_append_request-Keeps, on_vote_request-Keeps, run_follower-Keeps,
}
use hamok_ts.Raft.Leader.Terms.{
  leader_on_append_request-Keeps, on_append_response-Keeps, run_leader-Keeps,
}

module _ {E : Type 0} where
  -- A candidate has noted no term: what its listeners leave behind has.
  on_vote_response-Keeps :
      (now extra : ℕ) (r : RaftVoteResponse) (c : CandidateState) (e : RaftEngine E)
      → e.state ≡ candidate c
      → Keeps e (on_vote_response now extra r c e).0
  unfolding on_vote_response set_state set_leader_id
  on_vote_response-Keeps now extra r c e st = ground arith

  candidate_on_append_request-Keeps :
      (now extra : ℕ) (r : RaftAppendEntriesRequestChunk E) (c : CandidateState) (e : RaftEngine E)
      → e.state ≡ candidate c
      → Keeps e (candidate_on_append_request now extra r c e).0
  unfolding candidate_on_append_request set_state set_leader_id
  candidate_on_append_request-Keeps now extra r c e st = ground arith

  run_candidate-Keeps :
      (now extra : ℕ) (c : CandidateState) (e : RaftEngine E)
      → e.state ≡ candidate c
      → Keeps e (run_candidate now extra c e).0
  unfolding run_candidate set_state set_leader_id
  run_candidate-Keeps now extra c e st = ground arith

  deliver-Keeps :
      (env : Environment) (s : RaftState E) (ev : Event E) (e : RaftEngine E)
      → e.state ≡ s
      → TermNoted s e.props.current_term
      → Keeps e (deliver env s ev e).0
  unfolding deliver candidate_on_append_response candidate_on_vote_request
  deliver-Keeps env (follower f) (append_request c) e st h =
      on_append_request-Keeps env.now c f e st h
  deliver-Keeps env (follower f) (vote_request r) e st h = on_vote_request-Keeps env.now r f e st h
  deliver-Keeps env (follower f) timer e st h = run_follower-Keeps env.now f e st h
  deliver-Keeps env (candidate c) (append_request r) e st h =
      candidate_on_append_request-Keeps env.now env.extra r c e st
  deliver-Keeps env (candidate c) (vote_response r) e st h =
      on_vote_response-Keeps env.now env.extra r c e st
  deliver-Keeps env (candidate c) timer e st h = run_candidate-Keeps env.now env.extra c e st
  deliver-Keeps env (leader l) (append_request r) e st h =
      leader_on_append_request-Keeps env.locale_lt env.now r l e st h
  deliver-Keeps env (leader l) (append_response r) e st h =
      on_append_response-Keeps env.now r l e st h
  deliver-Keeps env (leader l) timer e st h = run_leader-Keeps env.now env.ids l e st h
  deliver-Keeps env s ev e st h = (omega arith, rw (st) h)

  -- Where a follower or a leader has the engine's own term in its state, no message and no timer
  -- lowers the term of the peer, and this holds of the state after it too.
  pub step-TermNoted :
      (env : Environment) (ev : Event E) (e : RaftEngine E)
      → TermNoted e.state e.props.current_term
      → (e.props.current_term ≤ (step env ev e).0.props.current_term)
        × TermNoted (step env ev e).0.state (step env ev e).0.props.current_term
  unfolding step
  step-TermNoted env ev e h = deliver-Keeps env e.state ev e refl h
