-- ===== src/Raft/Follower/Terms.antt =====
-- The term of a follower of src/raft/RaftFollowerState.ts over its listeners and its timer.
use hamok_ts.Prelude.{
  if◌then◌else◌, string_key, ℕ, ℤ, ◌≤◌, ◌≡◌, refl, Option, none, some, arith, Bool-cases, inl, inr,
  String, ltb,
}
use hamok_ts.JsMap
use hamok_ts.Raft.Messages.{RaftAppendEntriesRequestChunk, RaftVoteRequest}
use hamok_ts.Raft.Assembly.{RaftAppendEntriesRequest, Added, added, throws}
use hamok_ts.Raft.Engine.{RaftEngine, FollowerState, follower, set_leader_id, set_state}
use hamok_ts.Raft.Follower.{
  hear, note_leader, is_keep_alive, on_append_request, on_vote_request, run_follower,
  update_commit_index, accept_request, after_chunk, assemble, keep_alive, heard,
}
use hamok_ts.Raft.Engine.Terms.{TermNoted, Keeps, kept}

module _ {E : Type 0} where
  -- Only the log and the outputs change.
  update_commit_frame :
      (now : ℕ) (c : ℤ) (e : RaftEngine E)
      → ((update_commit_index now c e).0.props ≡ e.props)
        × ((update_commit_index now c e).0.state ≡ e.state)
  unfolding update_commit_index
  update_commit_frame now c e = ground arith

  accept_frame :
      (now : ℕ) (c : RaftAppendEntriesRequestChunk E) (f : FollowerState E)
      (r : RaftAppendEntriesRequest E) (e : RaftEngine E)
      → ((accept_request now c f r e).0.props ≡ e.props)
        × ((accept_request now c f r e).0.state ≡ e.state)
  unfolding accept_request
  accept_frame now c f r e = update_commit_frame now c.leader_commit _

  keep_alive_frame :
      (now : ℕ) (c : RaftAppendEntriesRequestChunk E) (e : RaftEngine E)
      → ((keep_alive now c e).0.props ≡ e.props) × ((keep_alive now c e).0.state ≡ e.state)
  unfolding keep_alive
  keep_alive_frame now c e = ground (arith, update_commit_frame now c.leader_commit e)

  after_chunk-Keeps :
      (now : ℕ) (c : RaftAppendEntriesRequestChunk E) (f : FollowerState E) (a : Added E)
      (e : RaftEngine E)
      → f.current_term ≡ e.props.current_term
      → Keeps e (after_chunk now c f a e).0
  unfolding after_chunk
  after_chunk-Keeps now c f (throws r) e h = ground arith
  after_chunk-Keeps now c f (added r) e h = elim (Bool-cases r.ready) [
    | inl all ↦
        let e' : RaftEngine E = record e {
          state =
              follower
                (record f { pending_requests = JsMap.delete c.request_id f.pending_requests });
        } in
        let frame = accept_frame now c f r e' in
        rw (all) (kept e' (accept_request now c f r e').0 frame.0 frame.1 (omega arith) h)
    | inr more ↦ rw (more) (ground arith)
  ]

  set_leader_frame :
      (id : Option String) (e : RaftEngine E)
      → ((set_leader_id id e).0.props ≡ e.props) × ((set_leader_id id e).0.state ≡ e.state)
  unfolding set_leader_id
  set_leader_frame id e = ground arith

  assemble-Keeps :
      (now : ℕ) (c : RaftAppendEntriesRequestChunk E) (f : FollowerState E) (e : RaftEngine E)
      → f.current_term ≡ e.props.current_term
      → Keeps e (assemble now c f e).0
  unfolding assemble
  assemble-Keeps now c f e h = after_chunk-Keeps now c f _ e h

  -- What follows once the term, the timer and the leader are noted.
  body-Keeps :
      (now n : ℕ) (c : RaftAppendEntriesRequestChunk E) (f : FollowerState E) (e : RaftEngine E)
      → e.state ≡ follower f
      → f.current_term ≡ e.props.current_term
      → n ≤ e.props.current_term
      → let e' = (if is_keep_alive c then keep_alive now c else assemble now c f) e in
        (n ≤ e'.0.props.current_term) × TermNoted e'.0.state e'.0.props.current_term
  body-Keeps now n c f e st h le = elim (Bool-cases (is_keep_alive c)) [
    | inl alive ↦
        let frame = keep_alive_frame now c e in
        rw (alive) (kept e (keep_alive now c e).0 frame.0 frame.1 le (rw (st) h))
    | inr entry ↦
        let keeps = assemble-Keeps now c f e h in rw (entry) (omega (arith, keeps.0), keeps.1)
  ]

  note_leader_frame :
      (id : Option String) (e : RaftEngine E)
      → ((note_leader id e).0.props ≡ e.props) × ((note_leader id e).0.state ≡ e.state)
  note_leader_frame none e = (refl, refl)
  note_leader_frame (some id) e = set_leader_frame (some id) e

  hear-Keeps :
      (now n : ℕ) (c : RaftAppendEntriesRequestChunk E) (f : FollowerState E) (e : RaftEngine E)
      → f.current_term ≡ e.props.current_term
      → n ≤ e.props.current_term
      → (n ≤ (hear now c f e).0.props.current_term)
        × TermNoted (hear now c f e).0.state (hear now c f e).0.props.current_term
  unfolding hear
  hear-Keeps now n c f e h le =
      let e1 : RaftEngine E = record e { state = follower f } in
      let frame = note_leader_frame c.leader_id e1 in
      body-Keeps now n c f (note_leader c.leader_id e1).0 frame.1 (rw (frame.0) h) (rw (frame.0) le)

  pub on_append_request-Keeps :
      (now : ℕ) (c : RaftAppendEntriesRequestChunk E) (f : FollowerState E) (e : RaftEngine E)
      → e.state ≡ follower f
      → f.current_term ≡ e.props.current_term
      → Keeps e (on_append_request now c f e).0
  unfolding on_append_request
  on_append_request-Keeps now c f e st h = elim (Bool-cases (ltb c.term f.current_term)) [
    | inl stale ↦ rw (stale) (omega arith, rw st h)
    | inr current ↦ elim (Bool-cases (ltb f.current_term c.term)) [
      | inl newer ↦
          let e1 : RaftEngine E = record e {
            props = record (e.props) { current_term = c.term; voted_for = none };
          } in
          let noted : (heard now c f).current_term ≡ c.term = unfold heard in (rw (newer)) in
          rw (current, newer)
            (hear-Keeps now e.props.current_term c (heard now c f) e1 noted (ground arith))
      | inr same ↦
          let noted : (heard now c f).current_term ≡ e.props.current_term =
            unfold heard in (rw (same) h) in
          rw (current, same)
            (hear-Keeps now e.props.current_term c (heard now c f) e noted (omega arith))
    ]
  ]

  pub on_vote_request-Keeps :
      (now : ℕ) (r : RaftVoteRequest) (f : FollowerState E) (e : RaftEngine E)
      → e.state ≡ follower f
      → f.current_term ≡ e.props.current_term
      → Keeps e (on_vote_request now r f e).0
  unfolding on_vote_request
  on_vote_request-Keeps now r f e st h = ground arith

  pub run_follower-Keeps :
      (now : ℕ) (f : FollowerState E) (e : RaftEngine E)
      → e.state ≡ follower f
      → f.current_term ≡ e.props.current_term
      → Keeps e (run_follower now f e).0
  unfolding run_follower set_state set_leader_id
  run_follower-Keeps now f e st h = ground arith
