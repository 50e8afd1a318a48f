-- ===== src/Raft/Leader.antt =====
-- src/raft/RaftLeaderState.ts: the listeners of a leader. `now` is `Date.now()`, and `locale_lt a b` is
-- `a.localeCompare(b) < 0`.
pub mod Replication
pub mod Majority
pub mod LogValidity
pub mod Terms
use hamok_ts.Prelude.{
  ℕ, ℤ, pos, negsuc, minus_one, pred_int, suc, ◌+◌, ◌*◌, max, String, string_discrete, ite, Bool,
  true, false, not, ◌&&◌, Option, none, some, List, [], ◌∷◌, ◌++◌, map, if◌then◌else◌, ltb, leb,
  ◌==◌, or_else, length, string_key,
}
use hamok_ts.JsMap
use hamok_ts.JsMap.{JsMap}
use hamok_ts.Logs.{LogEntry}
use hamok_ts.Logs.Collection.{uncommitted}
use hamok_ts.Logs.Commit.{commit_until}
use hamok_ts.Raft.Messages.{RaftAppendEntriesRequestChunk, RaftAppendEntriesResponse}
use hamok_ts.Raft.Engine.{
  SyncedProperties, LeaderState, Action, ◌>>◌, skip, reading, set_props, put_leader, set_leader_id,
  set_state, follower, emits_commit, emits_log,
}
use hamok_ts.Raft.Engine
use hamok_ts.Raft.Follower.{new_follower}

-- `peerNextIndex <= index` and `index <= matchIndex`.
abbrev pub int_le_index : ℤ → ℕ → Bool
int_le_index (pos n) i = leb n i
int_le_index (negsuc n) i = true

abbrev pub index_le_int : ℕ → ℤ → Bool
index_le_int i (pos n) = leb i n
index_le_int i (negsuc n) = false

-- How many of the remote peers are known to have the entry at `index`.
unfoldable pub count_matches : JsMap String ℤ → ℕ → List String → ℕ
count_matches matched index [] = 0
count_matches matched index (peer ∷ peers) =
    let rest = count_matches matched index peers in
    if index_le_int index (or_else (JsMap.get peer matched) minus_one) then suc rest else rest

-- `remotePeers.size + 1 < matchCount * 2`, where the leader counts itself.
unfoldable pub has_majority : JsMap String ℤ → List String → ℕ → Bool
unfolding count_matches
has_majority matched peers index =
    ltb (suc (length peers)) (suc (count_matches matched index peers) * 2)

abbrev pub note_match : String → ℤ → SyncedProperties → SyncedProperties
note_match peer next p = record p {
  next_index = JsMap.set peer next p.next_index;
  match_index = JsMap.set peer (pred_int next) p.match_index;
}

-- `startedUnsynced`: zero counts as not set.
abbrev since : Option ℕ → Option ℕ
since none = none
since (some t) = if ltb 0 t then some t else none

-- A sent request counts for 30 seconds.
unfoldable pub drop_expired : ℕ → String → LeaderState → LeaderState
drop_expired now peer l = elim (JsMap.get peer l.sent_requests) [
  | none ↦ l
  | some (id, created) ↦
      if ltb (created + 30000) now
      then record l { sent_requests = JsMap.delete peer l.sent_requests }
      else l
]

module _ {E : Type 0} where
  -- `follow`.
  unfoldable pub leader_follow : ℕ → Action E
  unfolding new_follower
  leader_follow now =
      set_leader_id none >> reading (λ e. set_state (follower (new_follower now none e)))

  -- `appendEntriesRequestListener`.
  unfoldable pub leader_on_append_request :
      (String → String → Bool) → ℕ → RaftAppendEntriesRequestChunk E → LeaderState → Action E
  unfolding leader_follow
  leader_on_append_request locale_lt now c l e = elim c.leader_id [
    | none ↦ (e, [])
    | some id ↦
        if ltb c.term l.current_term
        then (e, [])
        else ite (string_discrete id e.config.peer_id) (e, [])
            (if not (JsMap.member id e.remote_peers)
              then (e, [])
              else if ltb l.current_term c.term
              then leader_follow now e
              else if locale_lt e.config.peer_id id
              then leader_follow now e
              else (e, []))
  ]

  -- The loop over the entries that are not committed, with `maxCommitIndex + 1`: it stops at the
  -- peer's next index, and passes over the entries of other terms.
  unfoldable pub max_commit : ℤ → ℕ → JsMap String ℤ → List String → List (LogEntry E) → ℕ → ℕ
  unfolding has_majority
  max_commit next term matched peers [] found = found
  max_commit next term matched peers (entry ∷ entries) found =
      let rest : ℕ = max_commit next term matched peers entries (
        if entry.term == term && has_majority matched peers entry.index
        then max found (suc entry.index)
        else found) in
      if int_le_index next entry.index then found else rest

  unfoldable pub commit_majority : ℕ → ℕ → Action E
  commit_majority now until e =
      let (logs, entries, events) = commit_until now until e.logs in
      if ltb 0 until
      then (
        record e { logs = logs },
        map emits_log events ++ map (λ entry. emits_commit entry.index entry.entry) entries,
      )
      else (e, [])

  -- A successful and complete answer. `sentRequests.delete` gives a Boolean, so the test whether
  -- it is undefined never holds.
  unfoldable pub acknowledge : ℕ → RaftAppendEntriesResponse → LeaderState → Action E
  unfolding max_commit commit_majority
  acknowledge now r l =
      put_leader (record l { sent_requests = JsMap.delete r.source_peer_id l.sent_requests })
      >> set_props (note_match r.source_peer_id r.peer_next_index)
      >> reading (λ e. commit_majority now (
          max_commit r.peer_next_index l.current_term e.props.match_index e.remote_peers
            (uncommitted e.logs) 0))

  -- `appendEntriesResponseListener`.
  unfoldable pub on_append_response : ℕ → RaftAppendEntriesResponse → LeaderState → Action E
  unfolding acknowledge leader_follow
  on_append_response now r l =
      if ltb r.term l.current_term
      then skip
      else if ltb l.current_term r.term
      then leader_follow now
      else if not r.processed
      then skip
      else if not r.success
      then put_leader (record l { sent_requests = JsMap.delete r.source_peer_id l.sent_requests })
      else acknowledge now r l
