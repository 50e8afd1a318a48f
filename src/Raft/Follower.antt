-- ===== src/Raft/Follower.antt =====
-- src/raft/RaftFollowerState.ts. `now` is `Date.now()`.
pub mod Voting
pub mod Storing
pub mod LogValidity
pub mod Terms
pub mod Gap
use hamok_ts.Prelude.{
  ℕ, ℤ, pos, negsuc, minus_one, count_to, at_least_zero, sub_nat, zero, suc, ◌+◌, ◌-◌, ◌*◌, min,
  max, String, string_discrete, ite, Bool, true, false, not, ◌&&◌, Option, none, some, List, [],
  ◌∷◌, ◌++◌, map, if◌then◌else◌, ltb, leb, ◌==◌, or_else, length, string_key,
}
use hamok_ts.JsMap
use hamok_ts.Message.{HamokMessage}
use hamok_ts.Logs.{RaftLogs, LogEntry, compare_and_override, compare_and_add, override_below, reset}
use hamok_ts.Logs.Commit.{commit_until}
use hamok_ts.Raft.Messages.{
  RaftAppendEntriesRequestChunk, RaftVoteRequest, append_response, vote_response,
}
use hamok_ts.Raft.Assembly.{RaftAppendEntriesRequest, Added, added, throws, new_request, add_chunk}
use hamok_ts.Raft.Engine.{
  RaftEngine, FollowerState, CandidateState, Output, Action, ◌>>◌, skip, output, set_props,
  put_follower, set_leader_id, set_state, candidate, sends_vote_response, sends_append_response,
  emits_commit, emits_log,
}

-- `createRaftCandidateState`: it votes for itself.
unfoldable pub new_candidate : String → ℕ → CandidateState
new_candidate local_peer_id election_term = record {
  election_term = election_term;
  responded_remote_peer_ids = [];
  received_votes = local_peer_id ∷ [];
  notified_remote_peers = [];
  started = none;
  elected = false;
}

module _ {E : Type 0} where
  -- `createRaftFollowerState`.
  unfoldable pub new_follower : ℕ → Option ℕ → RaftEngine E → FollowerState E
  new_follower now extra e = record {
    extra_waiting_time = extra;
    pending_requests = [];
    updated = now;
    current_term = e.props.current_term;
  }

  abbrev respond : RaftAppendEntriesRequestChunk E → Bool → ℤ → Bool → Action E
  respond c success next processed =
      output (sends_append_response (append_response c success next processed))

  -- The last two lines of the listener, with the next index that the log has by then.
  abbrev respond_next : RaftAppendEntriesRequestChunk E → Bool → Action E
  respond_next c success e = respond c success (pos e.logs.next_index) true e

  abbrev commit_outputs : List (LogEntry E) → List (Output E)
  commit_outputs = map (λ entry. emits_commit entry.index entry.entry)

  unfoldable pub update_commit_index : ℕ → ℤ → Action E
  update_commit_index now leader_commit e =
      let until : ℕ = count_to leader_commit in
      let expected : ℕ = min e.logs.next_index until in
      let (logs, entries, events) = commit_until now expected e.logs in
      if leb until e.logs.committed
      then (e, [])
      else if leb expected e.logs.committed
      then (e, [])
      else (record e { logs = logs }, map emits_log events ++ commit_outputs entries)

  -- The loop over the entries: entry `i` goes to `leaderNextIndex - entryLength + i`.
  unfoldable pub store_entries :
      ℕ → ℕ → ℕ → ℕ → List (HamokMessage E) → RaftLogs E → Bool → RaftLogs E × Bool
  store_entries now term local_next index [] logs success = (logs, success)
  store_entries now term local_next index (m ∷ ms) logs success =
      let over : RaftLogs E = (compare_and_override now index term m logs).0 in
      let (grown, done) = compare_and_add now index term m logs in
      store_entries now term local_next (suc index) ms
        (if ltb index local_next then over else grown)
        (if ltb index local_next then success else success && done)

  -- The same from the index -(n + 1) on, while the index is negative; it is below `localNextIndex`.
  unfoldable pub store_below :
      ℕ → ℕ → ℕ → ℕ → List (HamokMessage E) → RaftLogs E → RaftLogs E × Bool
  unfolding store_entries
  store_below now term local_next n [] logs = (logs, true)
  store_below now term local_next zero (m ∷ ms) logs =
      store_entries now term local_next 0 ms (override_below now 0 term m logs).0 true
  store_below now term local_next (suc n) (m ∷ ms) logs =
      store_below now term local_next n ms (override_below now (suc n) term m logs).0

  unfoldable pub store_from : ℕ → ℕ → ℕ → ℤ → List (HamokMessage E) → RaftLogs E → RaftLogs E × Bool
  unfolding store_entries store_below
  store_from now term local_next (pos index) ms logs =
      store_entries now term local_next index ms logs true
  store_from now term local_next (negsuc n) ms logs = store_below now term local_next n ms logs

  -- The leader is further than its entries reach back to: the log starts anew.
  unfoldable pub close_gap : ℕ → ℕ → RaftLogs E → RaftLogs E
  close_gap leader_next n logs =
      if ltb (logs.next_index + n) leader_next then reset (leader_next - n) logs else logs

  -- A request whose chunks are all there. Where the leader's next index is negative, there is no gap.
  unfoldable pub accept_request :
      ℕ → RaftAppendEntriesRequestChunk E → FollowerState E → RaftAppendEntriesRequest E → Action E
  unfolding close_gap store_from
  accept_request now c f r e =
      let n : ℕ = length r.entries_list in
      let logs : RaftLogs E = close_gap (at_least_zero r.leader_next_index) n e.logs in
      let (logs', success) =
        store_from now f.current_term logs.next_index (sub_nat r.leader_next_index n) r.entries_list
          logs in
      ((update_commit_index now c.leader_commit) >> respond_next c success)
        (record e { logs = logs' })

  -- A chunk has been added to its request.
  unfoldable pub after_chunk :
      ℕ → RaftAppendEntriesRequestChunk E → FollowerState E → Added E → Action E
  unfolding accept_request
  after_chunk now c f (throws r) =
      put_follower (record f { pending_requests = JsMap.set c.request_id r f.pending_requests })
  after_chunk now c f (added r) =
      if not r.ready
      then put_follower
          (record f { pending_requests = JsMap.set c.request_id r f.pending_requests })
        >> respond c true minus_one false
      else put_follower
          (record f { pending_requests = JsMap.delete c.request_id f.pending_requests })
        >> accept_request now c f r

  abbrev adopt_term : ℕ → Action E
  adopt_term term = set_props λ p. record p { current_term = term; voted_for = none }

  abbrev pub note_leader : Option String → Action E
  note_leader none = skip
  note_leader (some id) = set_leader_id (some id)

  abbrev pub is_keep_alive : RaftAppendEntriesRequestChunk E → Bool
  is_keep_alive c = elim c.entry [ none ↦ c.sequence == 0 | some m ↦ false ]

  -- The variables after the term, the timer and the leader are noted.
  unfoldable pub heard : ℕ → RaftAppendEntriesRequestChunk E → FollowerState E → FollowerState E
  heard now c f = record f {
    current_term = if ltb f.current_term c.term then c.term else f.current_term;
    updated = now;
    extra_waiting_time = elim c.leader_id [ none ↦ f.extra_waiting_time | some id ↦ none ];
  }

  unfoldable pub keep_alive : ℕ → RaftAppendEntriesRequestChunk E → Action E
  keep_alive now c =
      if not c.last_message
      then respond c false minus_one true
      else update_commit_index now c.leader_commit >> respond_next c true

  unfoldable pub assemble : ℕ → RaftAppendEntriesRequestChunk E → FollowerState E → Action E
  unfolding after_chunk
  assemble now c f =
      after_chunk now c f (
        add_chunk c
          (or_else (JsMap.get c.request_id f.pending_requests) (new_request c.request_id)))

  -- The listener from the timer on; `h` has the variables by then.
  unfoldable pub hear : ℕ → RaftAppendEntriesRequestChunk E → FollowerState E → Action E
  unfolding keep_alive assemble
  hear now c h =
      put_follower h
      >> note_leader c.leader_id
      >> (if is_keep_alive c then keep_alive now c else assemble now c h)

  -- `appendEntriesRequestListener`.
  unfoldable pub on_append_request :
      ℕ → RaftAppendEntriesRequestChunk E → FollowerState E → Action E
  unfolding hear
  on_append_request now c f =
      if ltb c.term f.current_term
      then respond c false minus_one false
      else (if ltb f.current_term c.term then adopt_term c.term else skip)
        >> hear now c (heard now c f)

  abbrev deny : RaftVoteRequest → Action E
  deny r = output (sends_vote_response (vote_response r false))

  unfoldable pub cast_vote : ℕ → RaftVoteRequest → FollowerState E → Option String → Action E
  cast_vote now r f none =
      set_props (λ p. record p { voted_for = some r.candidate_id })
      >> put_follower (record f { updated = now })
      >> output (sends_vote_response (vote_response r true))
  cast_vote now r f (some id) =
      output
        (sends_vote_response (vote_response r (ite (string_discrete id r.candidate_id) true false)))

  -- `voteRequestListener`.
  unfoldable pub on_vote_request : ℕ → RaftVoteRequest → FollowerState E → Action E
  unfolding cast_vote
  on_vote_request now r f e =
      if leb r.term e.props.current_term
      then deny r e
      else if ltb 1 e.logs.committed && ltb (count_to r.last_log_index) e.logs.committed
      then deny r e
      else cast_vote now r f e.props.voted_for e

  abbrev pub waiting_time : FollowerState E → ℕ
  waiting_time f = or_else f.extra_waiting_time 0

  unfoldable pub time_out : ℕ → FollowerState E → Action E
  unfolding new_candidate
  time_out now f e = elim e.remote_peers [
    | [] ↦ put_follower (record f { updated = now }) e
    | _ ↦
        if e.config.only_follower
        then put_follower
            (record f {
              updated = now;
              extra_waiting_time =
                  some (max e.config.follower_max_idle_in_ms (min (waiting_time f * 2) 30000));
            })
            e
        else set_state (candidate (new_candidate e.config.peer_id (suc e.props.current_term))) e
  ]

  -- `run`.
  unfoldable pub run_follower : ℕ → FollowerState E → Action E
  unfolding time_out
  run_follower now f e =
      if leb now (f.updated + (e.config.follower_max_idle_in_ms + waiting_time f))
      then (e, [])
      else (set_leader_id none >> set_props (λ p. record p { voted_for = none }) >> time_out now f)
          e
