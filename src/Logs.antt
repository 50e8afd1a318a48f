-- ===== src/Logs.antt =====
-- src/raft/MemoryStoredRaftLogs.ts and src/raft/LogEntry.ts: the log of one Raft peer.
-- `_commitIndex` starts at -1: `committed` is `_commitIndex + 1`, the number of the indices that
-- are committed, and a parameter `newCommitIndex` is given plus one too. `Date.now()` is the
-- argument `now`. What the source emits is returned, in the order in which it is emitted.
-- The keys of `_entries` may be negative, since a follower overrides at any index that a request
-- gives: `entries` has those from 0 on, and `below` the others, the one under -(n + 1) at n.
pub mod Collection
pub mod Commit
pub mod Purge
pub mod Invariant
pub mod Removal
pub mod Expiry
pub mod Committing
pub mod Collecting
pub mod History
use hamok_ts.Prelude.{
  ℕ, suc, ◌+◌, ◌-◌, Bool, true, false, ◌&&◌, Option, none, some, List, [], ◌∷◌, ltb, leb, ◌==◌,
  if◌then◌else◌, number_key,
}
use hamok_ts.JsMap
use hamok_ts.JsMap.{JsMap}
use hamok_ts.Message.{HamokMessage, weight}

-- Of an entry under a negative index -(n + 1), `index` is n.
pub record LogEntry (E : Type 0) : Type 0 where
  pub index : ℕ
  pub term : ℕ
  pub entry : HamokMessage E
  pub timestamp : ℕ

pub record LogsConfig : Type 0 where
  pub expiration_time_in_ms : ℕ
  pub memory_size_high_water_mark : ℕ

pub record RaftLogs (E : Type 0) : Type 0 where
  pub config : LogsConfig
  pub first_index : ℕ
  pub next_index : ℕ
  pub committed : ℕ
  pub missing_entries_logged : Bool
  pub bytes_in_memory : ℕ
  pub entries : JsMap ℕ (LogEntry E)
  pub below : JsMap ℕ (LogEntry E)

pub data LogEvent (E : Type 0) : Type 0 where
  commits : ℕ → HamokMessage E → LogEvent E
  expires : ℕ → HamokMessage E → LogEvent E
  removes : ℕ → HamokMessage E → LogEvent E
  high_water_mark : ℕ → LogEvent E

module _ {E : Type 0} where
  -- The constructor, without initial entries.
  abbrev pub create : LogsConfig → RaftLogs E
  create config = record {
    config = config;
    first_index = 0;
    next_index = 0;
    committed = 0;
    missing_entries_logged = false;
    bytes_in_memory = 0;
    entries = [];
    below = [];
  }

  unfoldable pub log_size : RaftLogs E → ℕ
  log_size s = JsMap.size s.entries + JsMap.size s.below

  -- `get`.
  unfoldable pub get_entry : ℕ → RaftLogs E → Option (LogEntry E)
  get_entry index s = JsMap.get index s.entries

  abbrev pub new_entry : ℕ → ℕ → ℕ → HamokMessage E → LogEntry E
  new_entry now index term entry = record {
    index = index;
    term = term;
    entry = entry;
    timestamp = now;
  }

  unfoldable pub submit : ℕ → ℕ → HamokMessage E → RaftLogs E → RaftLogs E × ℕ × List (LogEvent E)
  submit now term entry s =
      let bytes : ℕ = s.bytes_in_memory + weight entry in
      let mark : ℕ = s.config.memory_size_high_water_mark in
      (
        record s {
          entries = JsMap.set s.next_index (new_entry now s.next_index term entry) s.entries;
          next_index = suc s.next_index;
          bytes_in_memory = bytes;
        },
        s.next_index,
        if ltb 0 mark && ltb mark bytes then high_water_mark bytes ∷ [] else [],
      )

  -- The old entry is `some` only where it was replaced.
  override_at :
      ℕ
      → ℕ
      → ℕ
      → HamokMessage E
      → RaftLogs E
      → Option (LogEntry E)
      → RaftLogs E × Option (LogEntry E)
  override_at now index expected_term entry s none = (
    record s {
      entries = JsMap.set index (new_entry now index expected_term entry) s.entries;
      bytes_in_memory = s.bytes_in_memory + weight entry;
    },
    none,
  )
  override_at now index expected_term entry s (some old) =
      if expected_term == old.term then (s, none) else (
        record s {
          entries = JsMap.set index (new_entry now index expected_term entry) s.entries;
          bytes_in_memory = s.bytes_in_memory - weight old.entry + weight entry;
        },
        some old,
      )

  unfoldable pub compare_and_override :
      ℕ → ℕ → ℕ → HamokMessage E → RaftLogs E → RaftLogs E × Option (LogEntry E)
  unfolding override_at
  compare_and_override now index expected_term entry s =
      if leb s.next_index index
      then (s, none)
      else override_at now index expected_term entry s (JsMap.get index s.entries)

  override_below_at :
      ℕ
      → ℕ
      → ℕ
      → HamokMessage E
      → RaftLogs E
      → Option (LogEntry E)
      → RaftLogs E × Option (LogEntry E)
  override_below_at now n expected_term entry s none = (
    record s {
      below = JsMap.set n (new_entry now n expected_term entry) s.below;
      bytes_in_memory = s.bytes_in_memory + weight entry;
    },
    none,
  )
  override_below_at now n expected_term entry s (some old) =
      if expected_term == old.term then (s, none) else (
        record s {
          below = JsMap.set n (new_entry now n expected_term entry) s.below;
          bytes_in_memory = s.bytes_in_memory - weight old.entry + weight entry;
        },
        some old,
      )

  -- `compareAndOverride` at the index -(n + 1), which is below `nextIndex`.
  unfoldable pub override_below :
      ℕ → ℕ → ℕ → HamokMessage E → RaftLogs E → RaftLogs E × Option (LogEntry E)
  unfolding override_below_at
  override_below now n expected_term entry s =
      override_below_at now n expected_term entry s (JsMap.get n s.below)

  unfoldable pub compare_and_add : ℕ → ℕ → ℕ → HamokMessage E → RaftLogs E → RaftLogs E × Bool
  compare_and_add now expected_next_index term entry s =
      if s.next_index == expected_next_index
      then (
        record s {
          entries = JsMap.set s.next_index (new_entry now s.next_index term entry) s.entries;
          next_index = suc s.next_index;
          bytes_in_memory = s.bytes_in_memory + weight entry;
        },
        true,
      )
      else (s, false)

  -- `newCommitIndex` itself: the follower resets to an index of at least 0.
  unfoldable pub reset : ℕ → RaftLogs E → RaftLogs E
  reset new_commit_index s = record s {
    entries = [];
    below = [];
    committed = suc new_commit_index;
    next_index = suc new_commit_index;
    first_index = new_commit_index;
    bytes_in_memory = 0;
  }
