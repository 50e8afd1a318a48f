-- ===== src/Tests/RaftRuns.antt =====
-- Runs of the theorems on the Raft engine.
use hamok_ts.Prelude.{
  ℕ, pos, suc, ◌+◌, ◌-◌, ◌*◌, ◌≤◌, ◌<◌, ◌≡◌, ◌≢◌, refl, ◌⊎◌, max, true, false, none, some, [], ◌∷◌,
  length, range_from, map, arith, number_key, string_key, count_to, string_discrete,
}
use hamok_ts.JsMap
use hamok_ts.Logs.{LogEntry}
use hamok_ts.Logs.Collection.{uncommitted}
use hamok_ts.Logs.Commit.{commit_until}
use hamok_ts.Logs.Invariant.{IsValid, create-IsValid}
use hamok_ts.Logs.Committing.{commit_indices}
use hamok_ts.Raft.Messages.{
  RaftAppendEntriesRequestChunk, RaftAppendEntriesResponse, RaftVoteRequest, RaftVoteResponse,
}
use hamok_ts.Raft.Assembly.{RaftAppendEntriesRequest, new_request}
use hamok_ts.Raft.Assembly.InOrder.{assemble_all, assemble_all-request_chunks}
use hamok_ts.Raft.Engine.{
  FollowerState, CandidateState, submit, RaftEngine, LeaderState, follower, candidate, leader,
  RaftStateName-discrete, set_state, set_leader_id,
}
use hamok_ts.Raft.Follower.{
  on_vote_request, run_follower, cast_vote, store_entries, close_gap, waiting_time,
}
use hamok_ts.Raft.Follower.Voting.{granted, on_vote_request_grants, votes_twice}
use hamok_ts.Raft.Follower.Storing.{Stored, store_entries_places}
use hamok_ts.Raft.Follower.Gap.{gap_skips_first}
use hamok_ts.Raft.Candidate.{on_vote_response, count_vote, lead, new_leader}
use hamok_ts.Raft.Candidate.Election.{on_vote_response-leader}
use hamok_ts.Raft.Leader.{acknowledge}
use hamok_ts.Raft.Leader.Replication.{request_chunks}
use hamok_ts.Raft.Leader.Majority.{IsIn, Committable, acknowledge_commits}
use hamok_ts.Raft.Node.{Environment, step, append_request}
use hamok_ts.Raft.Node.LogValidity.{step-IsValid}
use hamok_ts.Raft.Engine.Terms.{TermNoted}
use hamok_ts.Raft.Node.Terms.{step-TermNoted}
use hamok_ts.Raft.Node.Lifetime.{Reaches-IsValid, stays, steps, submits}
use hamok_ts.Messages.Decoding.{decoded}
use hamok_ts.Raft.Emitter.{send, receive, encode_append_request}
use hamok_ts.Raft.Emitter.RoundTrip.{receive-send}
use hamok_ts.Tests.Samples.{
  logs_config, note, noted, no_logs, three_logs, engine_with, engine_config, a_follower,
  a_candidate, a_leader,
}
use hamok_ts.Tests.LogRuns.{three_logs-IsValid, three_next}

abbrev environment : Environment
environment = record { now = 500; extra = 3; ids = λ peer. peer; locale_lt = λ a b. false }

abbrev a_chunk : RaftAppendEntriesRequestChunk ℕ
a_chunk = record {
  request_id = "r";
  peer_id = "a";
  leader_id = some "b";
  leader_commit = pos 0;
  leader_next_index = pos 1;
  prev_log_index = pos 0;
  prev_log_term = pos 0;
  term = 2;
  sequence = 0;
  last_message = true;
  entry = some (note 7);
}

abbrev following : RaftEngine ℕ
following = engine_with no_logs 1 (follower a_follower)

-- The leader's next index is below the number of entries: the entry goes under the index -1.
abbrev short_chunk : RaftAppendEntriesRequestChunk ℕ
short_chunk = record a_chunk { leader_next_index = pos 0 }

step-IsValid_example : IsValid (step environment (append_request short_chunk) following).0.logs
step-IsValid_example =
    step-IsValid environment (append_request short_chunk) following (create-IsValid logs_config)

abbrev later : RaftEngine ℕ
later = (submit 600 (note 1) (step environment (append_request a_chunk) following).0).0

Reaches-IsValid_example :
    IsValid later.logs
    × (following.props.current_term ≤ later.props.current_term)
    × TermNoted later.state later.props.current_term
Reaches-IsValid_example =
    Reaches-IsValid following later
      (submits 600 (note 1) (steps environment (append_request a_chunk) stays))
      (create-IsValid logs_config) refl

step-TermNoted_example :
    (following.props.current_term
      ≤ (step environment (append_request a_chunk) following).0.props.current_term)
    × TermNoted
        (step environment (append_request a_chunk) following).0.state
        (step environment (append_request a_chunk) following).0.props.current_term
step-TermNoted_example = step-TermNoted environment (append_request a_chunk) following refl

abbrev leading : RaftEngine ℕ
leading = engine_with three_logs 1 (leader a_leader)

abbrev an_answer : RaftAppendEntriesResponse
an_answer = record {
  request_id = "r";
  source_peer_id = "b";
  destination_peer_id = some "a";
  term = 1;
  success = true;
  peer_next_index = pos 2;
  processed = true;
}

acknowledge_commits_example :
    let e' = (acknowledge 500 an_answer a_leader leading).0 in
    (e'.logs.committed ≡ leading.logs.committed)
    ⊎ ((d : LogEntry ℕ) × IsIn d (uncommitted leading.logs)
        × Committable an_answer.peer_next_index a_leader.current_term e'.props.match_index
            leading.remote_peers d
        × (e'.logs.committed ≤ suc d.index))
acknowledge_commits_example = acknowledge_commits 500 an_answer a_leader leading three_logs-IsValid

abbrev a_vote : RaftVoteResponse
a_vote = record { term = 2; vote_granted = true; destination_peer_id = "a"; source_peer_id = "b" }

abbrev electing : RaftEngine ℕ
electing = engine_with three_logs 1 (candidate a_candidate)

abbrev elected : LeaderState
elected = record { current_term = 2; sent_requests = []; unsynced_remote_peers = [] }

wins : (on_vote_response 500 3 a_vote a_candidate electing).0.state ≡ leader elected
unfolding on_vote_response count_vote lead new_leader set_state set_leader_id JsMap.member JsMap.add
    string_discrete RaftStateName-discrete
wins = refl

on_vote_response-leader_example :
    (a_vote.vote_granted ≡ true)
    × (JsMap.member a_vote.source_peer_id electing.remote_peers ≡ true)
    × (a_vote.term ≡ a_candidate.election_term)
    × (suc (length electing.remote_peers)
        < length (JsMap.add a_vote.source_peer_id a_candidate.received_votes) * 2)
    × (a_candidate.election_term ≡ suc electing.props.current_term)
    × ((on_vote_response 500 3 a_vote a_candidate electing).0.props.current_term
        ≡ a_candidate.election_term)
    × (elected.current_term ≡ a_candidate.election_term)
on_vote_response-leader_example =
    on_vote_response-leader 500 3 a_vote a_candidate electing elected refl wins

abbrev a_request : RaftVoteRequest
a_request = record {
  term = 2;
  last_log_index = pos 3;
  last_log_term = 1;
  peer_id = "a";
  candidate_id = "b";
}

votes : (on_vote_request 500 a_request a_follower following).1 ≡ granted a_request
unfolding on_vote_request cast_vote
votes = refl

on_vote_request_grants_example :
    (following.props.current_term < a_request.term)
    × ((following.logs.committed ≤ 1)
        ⊎ (following.logs.committed ≤ count_to a_request.last_log_index))
    × ((following.props.voted_for ≡ none)
        ⊎ (following.props.voted_for ≡ some a_request.candidate_id))
    × ((on_vote_request 500 a_request a_follower following).0.props.voted_for
        ≡ some a_request.candidate_id)
on_vote_request_grants_example = on_vote_request_grants 500 a_request a_follower following votes

peers_there : following.remote_peers ≢ []
peers_there h = absurd cc

-- The follower after its vote.
abbrev has_voted : FollowerState ℕ
has_voted = record a_follower { updated = 500 }

voter : (on_vote_request 500 a_request a_follower following).0.state ≡ follower has_voted
unfolding on_vote_request cast_vote
voter = refl

waited : has_voted.updated + (engine_config.follower_max_idle_in_ms + waiting_time has_voted) < 5000
waited = omega arith

votes_twice_example :
    let voted = (on_vote_request 500 a_request a_follower following).0 in
    let run = (run_follower 5000 has_voted voted).0 in
    (voted.props.voted_for ≡ some "b")
    × (run.props.voted_for ≡ none)
    × ((c : CandidateState) × (run.state ≡ candidate c)
        × (c.election_term ≡ 2)
        × (c.received_votes ≡ "a" ∷ []))
votes_twice_example =
    votes_twice 500 5000 a_request a_follower has_voted following refl votes voter waited
      peers_there refl

assemble_all-request_chunks_example :
    (r : RaftAppendEntriesRequest ℕ) × (assemble_all
        (request_chunks "r" "b" (pos 0) 1 leading 0 (noted 1 ∷ noted 2 ∷ []))
        (new_request "r")
      ≡ some (r, []))
    × (r.entries_list ≡ map (λ x. x.entry) (noted 1 ∷ noted 2 ∷ []))
    × (r.leader_next_index ≡ pos leading.logs.next_index)
assemble_all-request_chunks_example =
    assemble_all-request_chunks "r" "b" (pos 0) 1 leading (noted 1) (noted 2 ∷ [])

store_entries_places_example :
    let r = store_entries 500 2 3 2 (note 8 ∷ note 9 ∷ []) three_logs true in
    (r.1 ≡ true)
    × (r.0.next_index ≡ max 3 (2 + length (note 8 ∷ note 9 ∷ [])))
    × Stored 2 (2 + 1) (note 9) three_logs r.0
store_entries_places_example =
    store_entries_places 500 2 3 2 1 (note 9) (note 8 ∷ note 9 ∷ []) three_logs
      (omega (arith, three_next)) (omega (arith, three_next)) refl

gap_skips_first_example :
    let first = 10 - suc (length (note 9 ∷ [])) in
    let old = close_gap 10 (suc (length (note 9 ∷ []))) three_logs in
    let new = (store_entries 500 2 old.next_index first (note 8 ∷ note 9 ∷ []) old true).0 in
    ((d : LogEntry ℕ) × (JsMap.get first new.entries ≡ some d) × (d.entry ≡ note 8))
    × (new.committed ≡ suc first)
    × ((later until : ℕ)
        → commit_indices (commit_until later until new).2
          ≡ range_from (suc first) (length (commit_until later until new).1))
gap_skips_first_example =
    gap_skips_first 500 2 10 (note 8) (note 9 ∷ []) three_logs (omega (arith, three_next))

chunk_sent : send (append_request a_chunk) ≡ some (encode_append_request a_chunk)
unfolding send
chunk_sent = refl

receive-send_example : receive (encode_append_request a_chunk) ≡ decoded (append_request a_chunk)
receive-send_example =
    receive-send (append_request a_chunk) (encode_append_request a_chunk) chunk_sent
