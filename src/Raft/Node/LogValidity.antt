-- ===== src/Raft/Node/LogValidity.antt =====
-- The log of a peer over the steps of its engine.
use hamok_ts.Prelude.{string_key, ℕ, ◌≡◌, arith}
use hamok_ts.Logs.Invariant.{IsValid}
use hamok_ts.Raft.Messages.{RaftAppendEntriesRequestChunk, RaftVoteResponse}
use hamok_ts.Raft.Engine.{
  RaftEngine, RaftState, CandidateState, follower, candidate, leader, set_leader_id, set_state,
}
use hamok_ts.Raft.Candidate.{
  candidate_on_append_request, candidate_on_append_response, candidate_on_vote_request,
  on_vote_response, run_candidate,
}
use hamok_ts.Raft.Leader.Replication.{run_leader}
use hamok_ts.Raft.Node.{
  Event, Environment, deliver, step, append_request, append_response, vote_request, vote_response,
  timer,
}
use hamok_ts.Raft.Follower.LogValidity.{
  on_append_request-IsValid, on_vote_request_logs, run_follower_logs,
}
use hamok_ts.Raft.Leader.LogValidity.{
  leader_on_append_request_logs, on_append_response-IsValid, lead_peers-IsValid,
}

module _ {E : Type 0} where
  on_vote_response_logs :
      (now extra : ℕ) (r : RaftVoteResponse) (c : CandidateState) (e : RaftEngine E)
      → (on_vote_response now extra r c e).0.logs ≡ e.logs
  unfolding on_vote_response set_state set_leader_id
  on_vote_response_logs now extra r c e = ground arith

  candidate_on_append_request_logs :
      (now extra : ℕ) (r : RaftAppendEntriesRequestChunk E) (c : CandidateState) (e : RaftEngine E)
      → (candidate_on_append_request now extra r c e).0.logs ≡ e.logs
  unfolding candidate_on_append_request set_state set_leader_id
  candidate_on_append_request_logs now extra r c e = ground arith

  run_candidate_logs :
      (now extra : ℕ) (c : CandidateState) (e : RaftEngine E)
      → (run_candidate now extra c e).0.logs ≡ e.logs
  unfolding run_candidate set_state set_leader_id
  run_candidate_logs now extra c e = ground arith

  deliver-IsValid :
      (env : Environment) (s : RaftState E) (ev : Event E) (e : RaftEngine E)
      → IsValid e.logs
      → IsValid (deliver env s ev e).0.logs
  unfolding deliver run_leader candidate_on_append_response candidate_on_vote_request
  deliver-IsValid env (follower f) (append_request c) e v =
      on_append_request-IsValid env.now c f e v
  deliver-IsValid env (follower f) (vote_request r) e v = rw (on_vote_request_logs env.now r f e) v
  deliver-IsValid env (follower f) timer e v = rw (run_follower_logs env.now f e) v
  deliver-IsValid env (candidate c) (append_request r) e v =
      rw (candidate_on_append_request_logs env.now env.extra r c e) v
  deliver-IsValid env (candidate c) (vote_response r) e v =
      rw (on_vote_response_logs env.now env.extra r c e) v
  deliver-IsValid env (candidate c) timer e v = rw (run_candidate_logs env.now env.extra c e) v
  deliver-IsValid env (leader l) (append_request r) e v =
      rw (leader_on_append_request_logs env.locale_lt env.now r l e) v
  deliver-IsValid env (leader l) (append_response r) e v =
      on_append_response-IsValid env.now r l e v
  deliver-IsValid env (leader l) timer e v = lead_peers-IsValid env.now env.ids l e.remote_peers e v
  deliver-IsValid env s ev e v = v

  -- Whatever message or timer a peer with a well-formed log handles, in whatever state, its log
  -- stays well formed, also where a request gives negative indices.
  pub step-IsValid :
      (env : Environment) (ev : Event E) (e : RaftEngine E)
      → IsValid e.logs
      → IsValid (step env ev e).0.logs
  unfolding step
  step-IsValid env ev e v = deliver-IsValid env e.state ev e v
