-- ===== src/Logs/Commit.antt =====
-- src/raft/MemoryStoredRaftLogs.ts: `commitUntil`.
use hamok_ts.Prelude.{
  ℕ, zero, suc, ◌-◌, none, some, List, [], ◌∷◌, ◌++◌, leb, if◌then◌else◌, number_key,
}
use hamok_ts.JsMap
use hamok_ts.Logs.{RaftLogs, LogEntry, LogEvent, commits}
use hamok_ts.Logs.Purge.{expire}

module _ {E : Type 0} where
  -- The loop `while (this._commitIndex < newCommitIndex)`, with the rounds that are left: a round
  -- commits one index or breaks.
  unfoldable pub commit_loop : ℕ → RaftLogs E → RaftLogs E × List (LogEntry E) × List (LogEvent E)
  commit_loop zero s = (s, [], [])
  commit_loop (suc n) s =
      let round : RaftLogs E × List (LogEntry E) × List (LogEvent E) =
        (elim (JsMap.get s.committed s.entries) [
          | none ↦ (s, [], [])
          | some e ↦
              let (s', entries, events) =
                commit_loop n (record s { committed = suc s.committed }) in
              (s', e ∷ entries, commits s.committed e.entry ∷ events)
        ]) in
      if leb s.next_index s.committed then (s, [], []) else round

  unfoldable pub expire_after :
      ℕ
      → RaftLogs E × List (LogEntry E) × List (LogEvent E)
      → RaftLogs E × List (LogEntry E) × List (LogEvent E)
  expire_after now (s, [], events) = (s, [], events)
  expire_after now (s, e ∷ entries, events) =
      let (s', expired) = expire now s in (s', e ∷ entries, events ++ expired)

  -- `until` is `newCommitIndex + 1`.
  unfoldable pub commit_until :
      ℕ → ℕ → RaftLogs E → RaftLogs E × List (LogEntry E) × List (LogEvent E)
  unfolding commit_loop expire_after expire
  commit_until now until s =
      if leb until s.committed
      then (s, [], [])
      else expire_after now (commit_loop (until - s.committed) s)
