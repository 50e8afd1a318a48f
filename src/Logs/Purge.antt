-- ===== src/Logs/Purge.antt =====
-- src/raft/MemoryStoredRaftLogs.ts: `removeUntil` and `_expire`, which drop old entries.
use hamok_ts.Prelude.{
  ℕ, zero, suc, ◌+◌, ◌-◌, ◌||◌, Option, none, some, List, [], ◌∷◌, ltb, leb, if◌then◌else◌,
  number_key,
}
use hamok_ts.JsMap
use hamok_ts.JsMap.{JsMap}
use hamok_ts.Message.{weight}
use hamok_ts.Logs.{RaftLogs, LogEntry, LogEvent, expires, removes}

module _ {E : Type 0} where
  -- The entry is there: it is deleted, and its bytes are no longer counted.
  abbrev pub drop_entry : ℕ → LogEntry E → RaftLogs E → RaftLogs E
  drop_entry index e s = record s {
    entries = JsMap.delete index s.entries;
    bytes_in_memory = s.bytes_in_memory - weight e.entry;
  }

  -- The loop of `removeUntil` over `n` indices.
  unfoldable pub remove_loop : ℕ → ℕ → RaftLogs E → RaftLogs E × List (LogEvent E)
  remove_loop zero index s = (s, [])
  remove_loop (suc n) index s = elim (JsMap.get index s.entries) [
    | none ↦ remove_loop n (suc index) (record s { first_index = suc index })
    | some e ↦
        let (s', events) = remove_loop n (suc index) (drop_entry index e s) in
        (s', removes index e.entry ∷ events)
  ]

  unfoldable pub remove_until : ℕ → RaftLogs E → RaftLogs E × List (LogEvent E)
  remove_until new_first_index s =
      if leb new_first_index s.first_index
      then (s, [])
      else if leb s.committed (suc new_first_index)
      then (s, [])
      else (let (s', events) = remove_loop (s.committed - suc s.first_index) s.first_index s in
          (record s' { first_index = new_first_index }, events))

  -- The first loop of `_expire`. `expired` is `expiredLogIndex`, and `none` is its -1; the test
  -- `thresholdInMs <= logEntry.timestamp` is written without the subtraction.
  unfoldable pub expire_scan : ℕ → ℕ → ℕ → Option ℕ → RaftLogs E → RaftLogs E × Option ℕ
  expire_scan now zero index expired s = (s, expired)
  expire_scan now (suc n) index expired s = elim (JsMap.get index s.entries) [
    | none ↦ expire_scan now n (suc index) expired (record s { first_index = suc index })
    | some e ↦
        let rest = expire_scan now n (suc index) (some index) s in
        if leb now (e.timestamp + s.config.expiration_time_in_ms) then (s, expired) else rest
  ]

  -- The second loop of `_expire`.
  unfoldable pub expire_loop : ℕ → ℕ → RaftLogs E → RaftLogs E × List (LogEvent E)
  expire_loop zero index s = (s, [])
  expire_loop (suc n) index s = elim (JsMap.get index s.entries) [
    | none ↦ expire_loop n (suc index) s
    | some e ↦
        let (s', events) = expire_loop n (suc index) (drop_entry index e s) in
        (s', expires index e.entry ∷ removes index e.entry ∷ events)
  ]

  unfoldable pub expire_scanned : RaftLogs E → Option ℕ → RaftLogs E × List (LogEvent E)
  expire_scanned s none = (s, [])
  expire_scanned s (some expired) =
      if leb s.next_index expired || ltb expired s.first_index
      then (s, [])
      else (let (s', events) = expire_loop (expired - s.first_index) s.first_index s in
          (record s' { first_index = expired }, events))

  unfoldable pub expire : ℕ → RaftLogs E → RaftLogs E × List (LogEvent E)
  unfolding expire_scan expire_scanned
  expire now s =
      if ltb s.config.expiration_time_in_ms 1
      then (s, [])
      else (let (s', expired) =
            expire_scan now (s.committed - suc s.first_index) s.first_index none s in
          expire_scanned s' expired)
