-- ===== src/Logs/Collection.antt =====
-- What src/raft/MemoryStoredRaftLogs.ts reads of the log: collectEntries and the iterator.
use hamok_ts.Prelude.{
  ℕ, ℤ, pos, negsuc, zero, suc, ◌+◌, ◌-◌, min, true, false, not, Option, none, some, List, [], ◌∷◌,
  ◌++◌, ltb, if◌then◌else◌, number_key,
}
use hamok_ts.JsMap
use hamok_ts.JsMap.{JsMap}
use hamok_ts.Logs.{LogEntry, RaftLogs}

module _ {E : Type 0} where
  -- The loop of `collectEntries` over `n` indices: the entries found and the number of missing ones.
  unfoldable pub collect : ℕ → ℕ → JsMap ℕ (LogEntry E) → List (LogEntry E) × ℕ
  collect zero index m = ([], 0)
  collect (suc n) index m =
      let (found, missing) = collect n (suc index) m in
      elim (JsMap.get index m) [ none ↦ (found, suc missing) | some e ↦ (e ∷ found, missing) ]

  unfoldable pub note_missing : ℕ → RaftLogs E → RaftLogs E
  note_missing missing s =
      if ltb 0 missing
      then (if not s.missing_entries_logged then record s { missing_entries_logged = true } else s)
      else (if s.missing_entries_logged then record s { missing_entries_logged = false } else s)

  unfoldable pub collect_until : ℕ → ℕ → RaftLogs E → List (LogEntry E) × RaftLogs E
  unfolding collect note_missing
  collect_until start end s =
      let (found, missing) = collect (end - start) start s.entries in
      (found, note_missing missing s)

  unfoldable pub collect_entries : ℕ → Option ℕ → RaftLogs E → List (LogEntry E) × RaftLogs E
  unfolding collect_until
  collect_entries start none s = collect_until start s.next_index s
  collect_entries start (some end) s =
      if ltb end start
      then ([], s)
      else if ltb s.next_index end
      then collect_until start s.next_index s
      else collect_until start (min end s.next_index) s

  -- The loop over the `n` indices below zero.
  unfoldable pub collect_below : ℕ → JsMap ℕ (LogEntry E) → List (LogEntry E) × ℕ
  collect_below zero m = ([], 0)
  collect_below (suc n) m =
      let (found, missing) = collect_below n m in
      elim (JsMap.get n m) [ none ↦ (found, suc missing) | some e ↦ (e ∷ found, missing) ]

  -- `collectEntries` without an end, from an index that may be negative.
  unfoldable pub collect_from : ℤ → RaftLogs E → List (LogEntry E) × RaftLogs E
  unfolding collect_entries collect_below collect note_missing
  collect_from (pos start) s = collect_entries start none s
  collect_from (negsuc n) s =
      let (low, missing_low) = collect_below (suc n) s.below in
      let (found, missing) = collect s.next_index 0 s.entries in
      (low ++ found, note_missing (missing_low + missing) s)

  -- The iterator: the entries from `commitIndex + 1` on, without those that are missing.
  unfoldable pub uncommitted : RaftLogs E → List (LogEntry E)
  unfolding collect
  uncommitted s = (collect (s.next_index - s.committed) s.committed s.entries).0
