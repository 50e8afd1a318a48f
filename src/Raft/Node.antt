-- ===== src/Raft/Node.antt =====
-- A peer's Raft engine as a whole: the messages and the timer go to the listeners of the state that
-- it is in, as `RaftMessageEmitter` of src/messages and the `run` of a state deliver them.
pub mod Terms
pub mod LogValidity
pub mod Lifetime
use hamok_ts.Prelude.{ℕ, String, Bool}
use hamok_ts.Raft.Messages.{
  RaftAppendEntriesRequestChunk, RaftAppendEntriesResponse, RaftVoteRequest, RaftVoteResponse,
}
use hamok_ts.Raft.Engine.{RaftState, Action, skip, follower, candidate, leader}
use hamok_ts.Raft.Follower.{on_append_request, on_vote_request, run_follower}
use hamok_ts.Raft.Candidate.{
  candidate_on_append_request, candidate_on_append_response, candidate_on_vote_request,
  on_vote_response, run_candidate,
}
use hamok_ts.Raft.Leader.{leader_on_append_request, on_append_response}
use hamok_ts.Raft.Leader.Replication.{run_leader}

pub data Event (E : Type 0) : Type 0 where
  append_request : RaftAppendEntriesRequestChunk E → Event E
  append_response : RaftAppendEntriesResponse → Event E
  vote_request : RaftVoteRequest → Event E
  vote_response : RaftVoteResponse → Event E
  timer : Event E

-- What a step takes from outside: the clock, the random waiting time, request ids, and the order
-- of peer ids.
pub record Environment : Type 0 where
  pub now : ℕ
  pub extra : ℕ
  pub ids : String → String
  pub locale_lt : String → String → Bool

module _ {E : Type 0} where
  unfoldable pub deliver : Environment → RaftState E → Event E → Action E
  deliver env (follower f) (append_request c) = on_append_request env.now c f
  deliver env (follower f) (vote_request r) = on_vote_request env.now r f
  deliver env (follower f) timer = run_follower env.now f
  deliver env (candidate c) (append_request r) = candidate_on_append_request env.now env.extra r c
  deliver env (candidate c) (append_response r) = candidate_on_append_response r
  deliver env (candidate c) (vote_request r) = candidate_on_vote_request r
  deliver env (candidate c) (vote_response r) = on_vote_response env.now env.extra r c
  deliver env (candidate c) timer = run_candidate env.now env.extra c
  deliver env (leader l) (append_request r) = leader_on_append_request env.locale_lt env.now r l
  deliver env (leader l) (append_response r) = on_append_response env.now r l
  deliver env (leader l) timer = run_leader env.now env.ids l
  deliver env _ _ = skip

  unfoldable pub step : Environment → Event E → Action E
  unfolding deliver
  step env ev e = deliver env e.state ev e
