-- ===== src/Raft/Follower/LogValidity.antt =====
-- The log of a follower of src/raft/RaftFollowerState.ts over its listeners and its timer.
use hamok_ts.Prelude.{
  ◌-◌, string_key, ◌+◌, ℕ, ℤ, ◌≡◌, refl, Option, none, some, arith, Bool-cases, inl, inr, String,
  leb, ltb, min, count_to,
}
use hamok_ts.JsMap
use hamok_ts.Logs.{RaftLogs}
use hamok_ts.Logs.Invariant.{IsValid, reset-IsValid}
use hamok_ts.Logs.Committing.{commit_until-IsValid}
use hamok_ts.Raft.Messages.{RaftAppendEntriesRequestChunk, RaftVoteRequest}
use hamok_ts.Raft.Assembly.{RaftAppendEntriesRequest, Added, added, throws}
use hamok_ts.Raft.Engine.{RaftEngine, FollowerState, follower, set_leader_id, set_state}
use hamok_ts.Raft.Follower.{
  hear, note_leader, is_keep_alive, on_append_request, on_vote_request, run_follower,
  update_commit_index, accept_request, after_chunk, keep_alive, heard, close_gap,
}
use hamok_ts.Raft.Follower.Storing.{store_from-IsValid}

module _ {E : Type 0} where
  update_commit-IsValid :
      (now : ℕ) (c : ℤ) (e : RaftEngine E)
      → IsValid e.logs
      → IsValid (update_commit_index now c e).0.logs
  unfolding update_commit_index
  update_commit-IsValid now c e v = elim (Bool-cases (leb (count_to c) e.logs.committed)) [
    | inl old ↦ rw (old) v
    | inr new ↦
        rw (new) (elim (Bool-cases (leb (min e.logs.next_index (count_to c)) e.logs.committed)) [
          | inl nothing ↦ rw (nothing) v
          | inr more ↦
              rw (more) (commit_until-IsValid now (min e.logs.next_index (count_to c)) e.logs v)
        ])
  ]

  close_gap-IsValid : (next n : ℕ) (s : RaftLogs E) → IsValid s → IsValid (close_gap next n s)
  unfolding close_gap
  close_gap-IsValid next n s v = elim (Bool-cases (ltb (s.next_index + n) next)) [
    | inl gap ↦ rw (gap) (reset-IsValid (next - n) s)
    | inr fits ↦ rw (fits) v
  ]

  accept-IsValid :
      (now : ℕ) (c : RaftAppendEntriesRequestChunk E) (f : FollowerState E)
      (r : RaftAppendEntriesRequest E) (e : RaftEngine E)
      → IsValid e.logs
      → IsValid (accept_request now c f r e).0.logs
  unfolding accept_request
  accept-IsValid now c f r e v =
      update_commit-IsValid now c.leader_commit _ (
        store_from-IsValid now f.current_term _ _ r.entries_list _ (close_gap-IsValid _ _ e.logs v))

  after_chunk-IsValid :
      (now : ℕ) (c : RaftAppendEntriesRequestChunk E) (f : FollowerState E) (a : Added E)
      (e : RaftEngine E)
      → IsValid e.logs
      → IsValid (after_chunk now c f a e).0.logs
  unfolding after_chunk
  after_chunk-IsValid now c f (throws r) e v = v
  after_chunk-IsValid now c f (added r) e v = elim (Bool-cases r.ready) [
    | inl all ↦ rw (all) (
        accept-IsValid now c f r
          (record e {
            state =
                follower
                  (record f { pending_requests = JsMap.delete c.request_id f.pending_requests });
          })
          v)
    | inr more ↦ rw (more) v
  ]

  set_leader_logs : (id : Option String) (e : RaftEngine E) → (set_leader_id id e).0.logs ≡ e.logs
  unfolding set_leader_id
  set_leader_logs id e = ground arith

  note_leader_logs : (id : Option String) (e : RaftEngine E) → (note_leader id e).0.logs ≡ e.logs
  note_leader_logs none e = refl
  note_leader_logs (some id) e = set_leader_logs (some id) e

  keep_alive-IsValid :
      (now : ℕ) (c : RaftAppendEntriesRequestChunk E) (e : RaftEngine E)
      → IsValid e.logs
      → IsValid (keep_alive now c e).0.logs
  unfolding keep_alive
  keep_alive-IsValid now c e v = elim (Bool-cases c.last_message) [
    | inl last ↦ rw (last) (update_commit-IsValid now c.leader_commit e v)
    | inr odd ↦ rw (odd) v
  ]

  hear-IsValid :
      (now : ℕ) (c : RaftAppendEntriesRequestChunk E) (f : FollowerState E) (e : RaftEngine E)
      → IsValid e.logs
      → IsValid (hear now c f e).0.logs
  unfolding hear
  hear-IsValid now c f e v =
      let e1 : RaftEngine E = record e { state = follower f } in
      let noted : IsValid (note_leader c.leader_id e1).0.logs =
        rw (note_leader_logs c.leader_id e1) v in
      elim (Bool-cases (is_keep_alive c)) [
        | inl alive ↦ rw (alive) (keep_alive-IsValid now c (note_leader c.leader_id e1).0 noted)
        | inr entry ↦
            rw (entry) (after_chunk-IsValid now c f _ (note_leader c.leader_id e1).0 noted)
      ]

  pub on_append_request-IsValid :
      (now : ℕ) (c : RaftAppendEntriesRequestChunk E) (f : FollowerState E) (e : RaftEngine E)
      → IsValid e.logs
      → IsValid (on_append_request now c f e).0.logs
  unfolding on_append_request
  on_append_request-IsValid now c f e v = elim (Bool-cases (ltb c.term f.current_term)) [
    | inl stale ↦ rw (stale) v
    | inr current ↦ rw (current) (elim (Bool-cases (ltb f.current_term c.term)) [
      | inl newer ↦ rw (newer) (
          hear-IsValid now c (heard now c f)
            (record e { props = record (e.props) { current_term = c.term; voted_for = none } }) v)
      | inr same ↦ rw (same) (hear-IsValid now c (heard now c f) e v)
    ])
  ]

  pub on_vote_request_logs :
      (now : ℕ) (r : RaftVoteRequest) (f : FollowerState E) (e : RaftEngine E)
      → (on_vote_request now r f e).0.logs ≡ e.logs
  unfolding on_vote_request
  on_vote_request_logs now r f e = ground arith

  pub run_follower_logs :
      (now : ℕ) (f : FollowerState E) (e : RaftEngine E) → (run_follower now f e).0.logs ≡ e.logs
  unfolding run_follower set_state set_leader_id
  run_follower_logs now f e = ground arith
