-- ===== src/Raft/Engine.antt =====
-- src/raft/RaftEngine.ts, SyncedProperties.ts, RaftState.ts and RaftEmptyState.ts: the state that
-- the Raft states share. A listener, timer or setter is an action: it gives the new engine and
-- what it sends and emits, in order.
pub mod Terms
use hamok_ts.Prelude.{
  ℕ, ℤ, suc, String, string_discrete, ite, Bool, true, false, Option, none, some, List, [], ◌∷◌,
  ◌++◌, if◌then◌else◌, ltb,
}
use hamok_ts.JsMap.{JsMap}
use hamok_ts.Message.{HamokMessage}
use hamok_ts.Logs.{RaftLogs, LogEvent}
use hamok_ts.Logs
use hamok_ts.Raft.Messages.{
  RaftAppendEntriesRequestChunk, RaftAppendEntriesResponse, RaftVoteRequest, RaftVoteResponse,
}
use hamok_ts.Raft.Assembly.{RaftAppendEntriesRequest}

pub record RaftEngineConfig : Type 0 where
  pub peer_id : String
  pub election_timeout_in_ms : ℕ
  pub follower_max_idle_in_ms : ℕ
  pub heartbeat_in_ms : ℕ
  pub only_follower : Bool

pub record SyncedProperties : Type 0 where
  pub current_term : ℕ
  pub voted_for : Option String
  pub last_applied : ℕ
  pub next_index : JsMap String ℤ
  pub match_index : JsMap String ℤ

-- The variables of the closure that `createRaftFollowerState` makes.
pub record FollowerState (E : Type 0) : Type 0 where
  pub extra_waiting_time : Option ℕ
  pub pending_requests : JsMap String (RaftAppendEntriesRequest E)
  pub updated : ℕ
  pub current_term : ℕ

pub record CandidateState : Type 0 where
  pub election_term : ℕ
  pub responded_remote_peer_ids : List String
  pub received_votes : List String
  pub notified_remote_peers : List String
  pub started : Option ℕ
  pub elected : Bool

pub record LeaderState : Type 0 where
  pub current_term : ℕ
  pub sent_requests : JsMap String (String × ℕ)
  pub unsynced_remote_peers : JsMap String ℕ

pub data RaftState (E : Type 0) : Type 0 where
  empty : RaftState E
  follower : FollowerState E → RaftState E
  candidate : CandidateState → RaftState E
  leader : LeaderState → RaftState E

pub data RaftStateName : Type 0 where
  follower_name candidate_name leader_name empty_name : RaftStateName

unfoldable pub RaftStateName-discrete : Discrete RaftStateName
RaftStateName-discrete = hlevel

abbrev pub state_name : {E : Type 0} → RaftState E → RaftStateName
state_name empty = empty_name
state_name (follower f) = follower_name
state_name (candidate c) = candidate_name
state_name (leader l) = leader_name

pub record RaftEngine (E : Type 0) : Type 0 where
  pub config : RaftEngineConfig
  pub logs : RaftLogs E
  pub props : SyncedProperties
  pub leader_id : Option String
  pub remote_peers : List String
  pub failed_elections : ℕ
  pub state : RaftState E

pub data Output (E : Type 0) : Type 0 where
  sends_vote_request : RaftVoteRequest → Output E
  sends_vote_response : RaftVoteResponse → Output E
  sends_append_request : RaftAppendEntriesRequestChunk E → Output E
  sends_append_response : RaftAppendEntriesResponse → Output E
  emits_commit : ℕ → HamokMessage E → Output E
  emits_leader_changed : Option String → Option String → Output E
  emits_state_changed : RaftStateName → RaftStateName → Output E
  emits_state : RaftStateName → Output E
  emits_unsynced_peer : String → Output E
  emits_log : LogEvent E → Output E

abbrev pub Action : Type 0 → Type 0
Action E = RaftEngine E → RaftEngine E × List (Output E)

infixl 5 ◌>>◌
abbrev pub ◌>>◌ : {E : Type 0} → Action E → Action E → Action E
◌>>◌ a b e = let (e', outputs) = a e in let (e'', more) = b e' in (e'', outputs ++ more)

abbrev pub same_id : Option String → Option String → Bool
same_id none none = true
same_id (some a) (some b) = ite (string_discrete a b) true false
same_id _ _ = false

abbrev elections_after : Option String → ℕ → ℕ
elections_after none n = n
elections_after (some id) n = 0

abbrev announce : {E : Type 0} → RaftStateName → List (Output E)
announce empty_name = []
announce name = emits_state name ∷ []

abbrev count_failure : RaftStateName → RaftStateName → ℕ → ℕ
count_failure candidate_name follower_name n = suc n
count_failure _ _ n = n

module _ {E : Type 0} where
  abbrev pub skip : Action E
  skip e = (e, [])

  abbrev pub output : Output E → Action E
  output o e = (e, o ∷ [])

  -- An action that first reads the engine.
  abbrev pub reading : (RaftEngine E → Action E) → Action E
  reading f e = f e e

  abbrev pub set_props : (SyncedProperties → SyncedProperties) → Action E
  set_props f e = (record e { props = f e.props }, [])

  -- The closure's variables change; the engine stays in the state.
  abbrev pub put_follower : FollowerState E → Action E
  put_follower f e = (record e { state = follower f }, [])

  abbrev pub put_candidate : CandidateState → Action E
  put_candidate c e = (record e { state = candidate c }, [])

  abbrev pub put_leader : LeaderState → Action E
  put_leader l e = (record e { state = leader l }, [])

  -- The setter of `leaderId`.
  unfoldable pub set_leader_id : Option String → Action E
  set_leader_id id e = if same_id e.leader_id id then (e, []) else (
    record e { leader_id = id; failed_elections = elections_after id e.failed_elections },
    emits_leader_changed id e.leader_id ∷ [],
  )

  -- `init` of a state: the follower and the candidate have none.
  unfoldable pub init_state : RaftState E → Action E
  unfolding set_leader_id
  init_state empty = set_leader_id none
  init_state (leader l) = reading λ e. set_leader_id (some e.config.peer_id)
  init_state _ = skip

  -- The setter of `state`. `close` of the old state takes its listeners off, and has no effect on
  -- the data.
  unfoldable pub set_state : RaftState E → Action E
  unfolding init_state
  set_state new e =
      let old : RaftStateName = state_name e.state in
      let name : RaftStateName = state_name new in
      let (e', outputs) =
        init_state new (record e {
          state = new;
          failed_elections = count_failure old name e.failed_elections;
        }) in
      ite (RaftStateName-discrete old name) (e, [])
        (e', outputs ++ emits_state_changed name old ∷ announce name)

  -- `submit`: only the leader takes a message.
  unfoldable pub submit :
      ℕ → HamokMessage E → RaftEngine E → RaftEngine E × Bool × List (LogEvent E)
  unfolding Logs.submit
  submit now m e = elim e.state [
    | leader l ↦
        let (logs, index, events) = Logs.submit now e.props.current_term m e.logs in
        (record e { logs = logs }, true, events)
    | _ ↦ (e, false, [])
  ]

  -- The constructor of the engine: it throws on a heartbeat below 1.
  unfoldable pub create : RaftEngineConfig → RaftLogs E → Option (RaftEngine E)
  create config logs =
      if ltb config.heartbeat_in_ms 1
      then none
      else some (record {
        config = config;
        logs = logs;
        props = record {
          current_term = 0;
          voted_for = none;
          last_applied = 0;
          next_index = [];
          match_index = [];
        };
        leader_id = none;
        remote_peers = [];
        failed_elections = 0;
        state = empty;
      })
