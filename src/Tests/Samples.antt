-- ===== src/Tests/Samples.antt =====
-- Logs, messages and engines to run the theorems at: peer "a" of the peers "a", "b" and "c".
use hamok_ts.Prelude.{ℕ, none, some, [], ◌∷◌, false}
use hamok_ts.Message.{HamokMessage, empty_message}
use hamok_ts.Logs.{RaftLogs, LogEntry, LogsConfig, create, submit}
use hamok_ts.Raft.Engine.{
  RaftEngine, RaftEngineConfig, SyncedProperties, RaftState, FollowerState, CandidateState,
  LeaderState,
}

abbrev pub logs_config : LogsConfig
logs_config = record { expiration_time_in_ms = 10; memory_size_high_water_mark = 100 }

abbrev pub note : ℕ → HamokMessage ℕ
note n = record (empty_message) { embedded_messages = n ∷ [] }

-- The entry with the index `i`, of the term 1, created at the time `i`.
abbrev pub noted : ℕ → LogEntry ℕ
noted i = record { index = i; term = 1; entry = note i; timestamp = i }

abbrev pub no_logs : RaftLogs ℕ
no_logs = create logs_config

-- A log with three entries, after three calls of `submit`.
abbrev pub three_logs : RaftLogs ℕ
three_logs = (submit 2 1 (note 2) (submit 1 1 (note 1) (submit 0 1 (note 0) no_logs).0).0).0

abbrev pub engine_config : RaftEngineConfig
engine_config = record {
  peer_id = "a";
  election_timeout_in_ms = 3000;
  follower_max_idle_in_ms = 1000;
  heartbeat_in_ms = 100;
  only_follower = false;
}

abbrev pub props_of : ℕ → SyncedProperties
props_of term = record {
  current_term = term;
  voted_for = none;
  last_applied = 0;
  next_index = [];
  match_index = [];
}

abbrev pub engine_with : RaftLogs ℕ → ℕ → RaftState ℕ → RaftEngine ℕ
engine_with logs term state = record {
  config = engine_config;
  logs = logs;
  props = props_of term;
  leader_id = none;
  remote_peers = "b" ∷ "c" ∷ [];
  failed_elections = 0;
  state = state;
}

abbrev pub a_follower : FollowerState ℕ
a_follower = record {
  extra_waiting_time = some 0;
  pending_requests = [];
  updated = 0;
  current_term = 1;
}

abbrev pub a_candidate : CandidateState
a_candidate = record {
  election_term = 2;
  responded_remote_peer_ids = "a" ∷ [];
  received_votes = "a" ∷ [];
  notified_remote_peers = "b" ∷ "c" ∷ [];
  started = some 1;
  elected = false;
}

abbrev pub a_leader : LeaderState
a_leader = record { current_term = 1; sent_requests = []; unsynced_remote_peers = [] }
