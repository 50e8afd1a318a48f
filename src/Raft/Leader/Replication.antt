-- ===== src/Raft/Leader/Replication.antt =====
-- What a leader of src/raft/RaftLeaderState.ts sends at each run; `ids` gives the request id that
-- `uuid` makes for a peer.
use hamok_ts.Prelude.{
  ℕ, ℤ, pos, negsuc, minus_one, pred_int, int_lt_nat, suc, ◌+◌, String, Bool, true, false, Option,
  none, some, List, [], ◌∷◌, ◌++◌, map, if◌then◌else◌, ltb, or_else, string_key, is_some,
}
use hamok_ts.JsMap
use hamok_ts.JsMap.{JsMap}
use hamok_ts.Message.{HamokMessage}
use hamok_ts.Logs.{RaftLogs, LogEntry, get_entry}
use hamok_ts.Logs.Collection.{collect_from}
use hamok_ts.Raft.Messages.{RaftAppendEntriesRequestChunk}
use hamok_ts.Raft.Engine.{
  RaftEngine, SyncedProperties, LeaderState, Output, Action, ◌>>◌, skip, output, reading, set_props,
  put_leader, set_leader_id, set_state, follower, sends_append_request, emits_commit, emits_log,
  emits_unsynced_peer,
}
use hamok_ts.Raft.Engine
use hamok_ts.Raft.Leader.{drop_expired, leader_follow, since}

module _ {E : Type 0} where
  -- The bookkeeping of the peers that need entries which the log has no more.
  unfoldable pub note_unsynced :
      ℕ → String → ℤ → RaftLogs E → LeaderState → LeaderState × List (Output E)
  note_unsynced now peer next logs l =
      if int_lt_nat next logs.first_index
      then elim (since (JsMap.get peer l.unsynced_remote_peers)) [
        | none ↦
            (record l { unsynced_remote_peers = JsMap.set peer now l.unsynced_remote_peers }, [])
        | some t ↦
            if ltb (t + 30000) now
            then (
              record l { unsynced_remote_peers = JsMap.delete peer l.unsynced_remote_peers },
              emits_unsynced_peer peer ∷ [],
            )
            else (l, [])
      ]
      else (if ltb 0 (JsMap.size l.unsynced_remote_peers)
          then (record l { unsynced_remote_peers = JsMap.delete peer l.unsynced_remote_peers }, [])
          else (l, []))

  -- The term of the entry before the peer's next index, or -1.
  unfoldable pub prev_log_term : RaftLogs E → ℤ → ℤ
  prev_log_term logs (negsuc n) = minus_one
  prev_log_term logs (pos i) = elim (get_entry i logs) [ none ↦ minus_one | some d ↦ pos d.term ]

  unfoldable pub request_chunk :
      String
      → String
      → ℤ
      → ℕ
      → RaftEngine E
      → ℕ
      → Bool
      → Option (HamokMessage E)
      → RaftAppendEntriesRequestChunk E
  unfolding prev_log_term
  request_chunk id peer prev term e sequence last entry = record {
    request_id = id;
    peer_id = peer;
    leader_id = some e.config.peer_id;
    leader_commit = pred_int (pos e.logs.committed);
    leader_next_index = pos e.logs.next_index;
    prev_log_index = prev;
    prev_log_term = prev_log_term e.logs prev;
    term = term;
    sequence = sequence;
    last_message = last;
    entry = entry;
  }

  -- The chunks of a request, one for each entry; the last is marked.
  unfoldable pub request_chunks :
      String
      → String
      → ℤ
      → ℕ
      → RaftEngine E
      → ℕ
      → List (LogEntry E)
      → List (RaftAppendEntriesRequestChunk E)
  unfolding request_chunk
  request_chunks id peer prev term e sequence [] = []
  request_chunks id peer prev term e sequence (d ∷ []) =
      request_chunk id peer prev term e sequence true (some d.entry) ∷ []
  request_chunks id peer prev term e sequence (d ∷ d' ∷ ds) =
      request_chunk id peer prev term e sequence false (some d.entry)
      ∷ request_chunks id peer prev term e (suc sequence) (d' ∷ ds)

  -- What is sent to a peer, and the requests that are under way then.
  unfoldable pub send_entries :
      ℕ
      → String
      → String
      → ℤ
      → RaftEngine E
      → List (LogEntry E)
      → LeaderState
      → LeaderState × List (Output E)
  unfolding request_chunks
  send_entries now id peer prev e [] l =
      (l, sends_append_request (request_chunk id peer prev l.current_term e 0 true none) ∷ [])
  send_entries now id peer prev e (d ∷ ds) l =
      if is_some (JsMap.get peer l.sent_requests)
      then (l, sends_append_request (request_chunk id peer prev l.current_term e 0 true none) ∷ [])
      else (
        record l { sent_requests = JsMap.set peer (id, now) l.sent_requests },
        map sends_append_request (request_chunks id peer prev l.current_term e 0 (d ∷ ds)),
      )

  -- One round of the loop of `run`.
  unfoldable pub update_peer :
      ℕ
      → String
      → String
      → RaftEngine E
      → LeaderState
      → RaftEngine E × LeaderState × List (Output E)
  unfolding note_unsynced drop_expired send_entries
  update_peer now id peer e l =
      let next : ℤ = or_else (JsMap.get peer e.props.next_index) (pos 0) in
      let (entries, logs) = collect_from next e.logs in
      let (l', unsynced) = note_unsynced now peer next e.logs l in
      let e' : RaftEngine E = record e { logs = logs } in
      let (l'', sent) =
        send_entries now id peer (pred_int next) e' entries (drop_expired now peer l') in
      (e', l'', unsynced ++ sent)

  unfoldable pub update_peers :
      ℕ
      → (String → String)
      → List String
      → RaftEngine E
      → LeaderState
      → RaftEngine E × LeaderState × List (Output E)
  unfolding update_peer
  update_peers now ids [] e l = (e, l, [])
  update_peers now ids (peer ∷ peers) e l =
      let (e', l', outputs) = update_peer now (ids peer) peer e l in
      let (e'', l'', more) = update_peers now ids peers e' l' in (e'', l'', outputs ++ more)

  -- `run` for the remote peers that there are.
  unfoldable pub lead_peers : ℕ → (String → String) → LeaderState → List String → Action E
  unfolding update_peers leader_follow
  lead_peers now ids l [] e = leader_follow now e
  lead_peers now ids l (peer ∷ peers) e =
      let (e', l', outputs) = update_peers now ids (peer ∷ peers) e l in
      (record e' { state = Engine.leader l' }, outputs)

  -- `run`.
  unfoldable pub run_leader : ℕ → (String → String) → LeaderState → Action E
  unfolding lead_peers
  run_leader now ids l e = lead_peers now ids l e.remote_peers e
