-- ===== src/Raft/Leader/LogValidity.antt =====
-- The log of a leader of src/raft/RaftLeaderState.ts over its listeners and its timer.
use hamok_ts.Prelude.{
  pred_int, or_else, pos, Bool, string_key, ℕ, ◌≡◌, List, [], ◌∷◌, arith, Bool-cases, inl, inr,
  String, ltb,
}
use hamok_ts.JsMap
use hamok_ts.Logs.Collection.{uncommitted}
use hamok_ts.Logs.Invariant.{IsValid}
use hamok_ts.Logs.Committing.{commit_until-IsValid}
use hamok_ts.Logs.Collecting.{collect_from-IsValid}
use hamok_ts.Raft.Messages.{RaftAppendEntriesRequestChunk, RaftAppendEntriesResponse}
use hamok_ts.Raft.Engine.{RaftEngine, LeaderState, leader, set_leader_id, set_state}
use hamok_ts.Raft.Leader.{
  max_commit, note_match, leader_on_append_request, on_append_response, leader_follow, acknowledge,
  commit_majority,
}
use hamok_ts.Raft.Leader.Replication.{lead_peers, update_peers, update_peer}

module _ {E : Type 0} where
  pub leader_on_append_request_logs :
      (lt : String → String → Bool) (now : ℕ) (r : RaftAppendEntriesRequestChunk E)
      (l : LeaderState) (e : RaftEngine E)
      → (leader_on_append_request lt now r l e).0.logs ≡ e.logs
  unfolding leader_on_append_request set_state set_leader_id
  leader_on_append_request_logs lt now r l e = ground arith

  leader_follow_logs : (now : ℕ) (e : RaftEngine E) → (leader_follow now e).0.logs ≡ e.logs
  unfolding leader_follow set_state set_leader_id
  leader_follow_logs now e = ground arith

  commit_majority-IsValid :
      (now until : ℕ) (e : RaftEngine E)
      → IsValid e.logs
      → IsValid (commit_majority now until e).0.logs
  unfolding commit_majority
  commit_majority-IsValid now until e v = elim (Bool-cases (ltb 0 until)) [
    | inl some_found ↦ rw (some_found) (commit_until-IsValid now until e.logs v)
    | inr none_found ↦ rw (none_found) v
  ]

  acknowledge-IsValid :
      (now : ℕ) (r : RaftAppendEntriesResponse) (l : LeaderState) (e : RaftEngine E)
      → IsValid e.logs
      → IsValid (acknowledge now r l e).0.logs
  unfolding acknowledge
  acknowledge-IsValid now r l e v =
      let matched = JsMap.set r.source_peer_id (pred_int r.peer_next_index) e.props.match_index in
      commit_majority-IsValid now
        (max_commit r.peer_next_index l.current_term matched e.remote_peers (uncommitted e.logs) 0)
        (record e {
          state =
              leader (record l { sent_requests = JsMap.delete r.source_peer_id l.sent_requests });
          props = note_match r.source_peer_id r.peer_next_index e.props;
        })
        v

  pub on_append_response-IsValid :
      (now : ℕ) (r : RaftAppendEntriesResponse) (l : LeaderState) (e : RaftEngine E)
      → IsValid e.logs
      → IsValid (on_append_response now r l e).0.logs
  unfolding on_append_response
  on_append_response-IsValid now r l e v = elim (Bool-cases (ltb r.term l.current_term)) [
    | inl stale ↦ rw (stale) v
    | inr current ↦ elim (Bool-cases (ltb l.current_term r.term)) [
      | inl newer ↦ rw (current, newer) (rw (leader_follow_logs now e) v)
      | inr same ↦ elim (Bool-cases r.processed) [
        | inr part ↦ rw (current, same, part) v
        | inl whole ↦ elim (Bool-cases r.success) [
          | inl good ↦ rw (current, same, whole, good) (acknowledge-IsValid now r l e v)
          | inr bad ↦ rw (current, same, whole, bad) v
        ]
      ]
    ]
  ]

  update_peer-IsValid :
      (now : ℕ) (id peer : String) (e : RaftEngine E) (l : LeaderState)
      → IsValid e.logs
      → IsValid (update_peer now id peer e l).0.logs
  unfolding update_peer
  update_peer-IsValid now id peer e l v =
      (collect_from-IsValid (or_else (JsMap.get peer e.props.next_index) (pos 0)) e.logs v).0

  update_peers-IsValid :
      (now : ℕ) (ids : String → String) (peers : List String) (e : RaftEngine E) (l : LeaderState)
      → IsValid e.logs
      → IsValid (update_peers now ids peers e l).0.logs
  unfolding update_peers
  update_peers-IsValid now ids [] e l v = v
  update_peers-IsValid now ids (peer ∷ peers) e l v =
      update_peers-IsValid now ids peers (update_peer now (ids peer) peer e l).0
        (update_peer now (ids peer) peer e l).1 (update_peer-IsValid now (ids peer) peer e l v)

  pub lead_peers-IsValid :
      (now : ℕ) (ids : String → String) (l : LeaderState) (peers : List String) (e : RaftEngine E)
      → IsValid e.logs
      → IsValid (lead_peers now ids l peers e).0.logs
  unfolding lead_peers
  lead_peers-IsValid now ids l [] e v = rw (leader_follow_logs now e) v
  lead_peers-IsValid now ids l (peer ∷ peers) e v =
      update_peers-IsValid now ids (peer ∷ peers) e l v
