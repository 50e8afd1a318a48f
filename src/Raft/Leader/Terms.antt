-- ===== src/Raft/Leader/Terms.antt =====
-- The term of a leader of src/raft/RaftLeaderState.ts over its listeners and its timer.
use hamok_ts.Prelude.{◌∙◌, Bool, string_key, ℕ, ◌≡◌, refl, List, [], ◌∷◌, arith, String}
use hamok_ts.Raft.Messages.{RaftAppendEntriesRequestChunk, RaftAppendEntriesResponse}
use hamok_ts.Raft.Engine.{RaftEngine, LeaderState, leader, set_leader_id, set_state}
use hamok_ts.Raft.Leader.{leader_on_append_request, on_append_response}
use hamok_ts.Raft.Leader.Replication.{run_leader, update_peers, update_peer}
use hamok_ts.Raft.Engine.Terms.{Keeps}

module _ {E : Type 0} where
  pub leader_on_append_request-Keeps :
      (lt : String → String → Bool) (now : ℕ) (r : RaftAppendEntriesRequestChunk E)
      (l : LeaderState) (e : RaftEngine E)
      → e.state ≡ leader l
      → l.current_term ≡ e.props.current_term
      → Keeps e (leader_on_append_request lt now r l e).0
  unfolding leader_on_append_request set_state set_leader_id
  leader_on_append_request-Keeps lt now r l e st h = ground arith

  pub on_append_response-Keeps :
      (now : ℕ) (r : RaftAppendEntriesResponse) (l : LeaderState) (e : RaftEngine E)
      → e.state ≡ leader l
      → l.current_term ≡ e.props.current_term
      → Keeps e (on_append_response now r l e).0
  unfolding on_append_response set_state set_leader_id
  on_append_response-Keeps now r l e st h = ground arith

  update_peer_frame :
      (now : ℕ) (id peer : String) (e : RaftEngine E) (l : LeaderState)
      → ((update_peer now id peer e l).0.props ≡ e.props)
        × ((update_peer now id peer e l).1.current_term ≡ l.current_term)
  unfolding update_peer
  update_peer_frame now id peer e l = ground arith

  update_peers_frame :
      (now : ℕ) (ids : String → String) (peers : List String) (e : RaftEngine E) (l : LeaderState)
      → ((update_peers now ids peers e l).0.props ≡ e.props)
        × ((update_peers now ids peers e l).1.current_term ≡ l.current_term)
  unfolding update_peers
  update_peers_frame now ids [] e l = (refl, refl)
  update_peers_frame now ids (peer ∷ peers) e l =
      let one = update_peer_frame now (ids peer) peer e l in
      let rest =
        update_peers_frame now ids peers (update_peer now (ids peer) peer e l).0
          (update_peer now (ids peer) peer e l).1 in
      (rest.0 ∙ one.0, rest.1 ∙ one.1)

  pub run_leader-Keeps :
      (now : ℕ) (ids : String → String) (l : LeaderState) (e : RaftEngine E)
      → e.state ≡ leader l
      → l.current_term ≡ e.props.current_term
      → Keeps e (run_leader now ids l e).0
  unfolding run_leader set_state set_leader_id
  run_leader-Keeps now ids l e st h =
      let frame = update_peers_frame now ids e.remote_peers e l in ground (arith, frame)
