-- ===== src/Message.antt =====
-- src/messages/HamokMessage.ts: the wire message. The file is generated from
-- schema/hamokMessage.proto; its fields are data, and the serializers of the protobuf runtime are
-- not modelled. `E` is the type of the embedded messages, so that a message that carries
-- messages is no recursive type.
use hamok_ts.Prelude.{ℕ, ℤ, String, Bool, Option, none, List, [], length, ◌+◌}

-- A Uint8Array.
abbrev pub Bytes : Type 0
Bytes = List ℕ

pub data MessageProtocol : Type 0 where
  raft_communication_protocol grid_communication_protocol storage_communication_protocol :
      MessageProtocol

pub data MessageType : Type 0 where
  hello_notification endpoint_states_notification ongoing_requests_notification : MessageType
  join_notification raft_vote_request raft_vote_response : MessageType
  raft_append_entries_request_chunk raft_append_entries_response : MessageType
  submit_message_request submit_message_response clear_entries_request : MessageType
  clear_entries_response clear_entries_notification get_entries_request : MessageType
  get_entries_response get_size_request get_size_response get_keys_request : MessageType
  get_keys_response delete_entries_request delete_entries_response : MessageType
  delete_entries_notification remove_entries_request remove_entries_response : MessageType
  remove_entries_notification entries_removed_notification : MessageType
  insert_entries_request insert_entries_response insert_entries_notification : MessageType
  entries_inserted_notification update_entries_request update_entries_response : MessageType
  update_entries_notification entry_updated_notification : MessageType
  storage_applied_commit_notification storage_hello_notification : MessageType
  storage_state_notification : MessageType

-- The numbers of the enum.
unfoldable pub type_number : MessageType → ℕ
type_number hello_notification = 1
type_number endpoint_states_notification = 2
type_number ongoing_requests_notification = 3
type_number join_notification = 4
type_number raft_vote_request = 12
type_number raft_vote_response = 13
type_number raft_append_entries_request_chunk = 16
type_number raft_append_entries_response = 17
type_number submit_message_request = 20
type_number submit_message_response = 21
type_number clear_entries_request = 24
type_number clear_entries_response = 25
type_number clear_entries_notification = 26
type_number get_entries_request = 28
type_number get_entries_response = 29
type_number get_size_request = 32
type_number get_size_response = 33
type_number get_keys_request = 36
type_number get_keys_response = 37
type_number delete_entries_request = 40
type_number delete_entries_response = 41
type_number delete_entries_notification = 42
type_number remove_entries_request = 44
type_number remove_entries_response = 45
type_number remove_entries_notification = 46
type_number entries_removed_notification = 47
type_number insert_entries_request = 52
type_number insert_entries_response = 53
type_number insert_entries_notification = 54
type_number entries_inserted_notification = 55
type_number update_entries_request = 56
type_number update_entries_response = 57
type_number update_entries_notification = 58
type_number entry_updated_notification = 59
type_number storage_applied_commit_notification = 60
type_number storage_hello_notification = 61
type_number storage_state_notification = 62

pub record HamokMessage (E : Type 0) : Type 0 where
  pub protocol : Option MessageProtocol
  pub type : Option MessageType
  pub source_id : Option String
  pub destination_id : Option String
  pub storage_id : Option String
  pub request_id : Option String
  pub timestamp : Option ℕ
  pub storage_size : Option ℕ
  pub keys : List Bytes
  pub values : List Bytes
  pub active_endpoint_ids : List String
  pub embedded_messages : List E
  pub success : Option Bool
  pub execute_sync : Option Bool
  pub raft_leader_id : Option String
  pub raft_number_of_logs : Option ℕ
  pub raft_last_applied_index : Option ℕ
  pub raft_commit_index : Option ℤ
  pub raft_leader_next_index : Option ℤ
  pub raft_prev_log_term : Option ℤ
  pub raft_prev_log_index : Option ℤ
  pub raft_term : Option ℕ
  pub raft_peer_next_index : Option ℤ
  pub raft_candidate_id : Option String
  pub sequence : Option ℕ
  pub last_message : Option Bool
  pub prev_value : Option Bytes
  pub snapshot : Option Bytes

-- `new HamokMessage()`: no field is set, and the repeated fields are empty.
abbrev pub empty_message : {E : Type 0} → HamokMessage E
empty_message = record {
  protocol = none;
  type = none;
  source_id = none;
  destination_id = none;
  storage_id = none;
  request_id = none;
  timestamp = none;
  storage_size = none;
  keys = [];
  values = [];
  active_endpoint_ids = [];
  embedded_messages = [];
  success = none;
  execute_sync = none;
  raft_leader_id = none;
  raft_number_of_logs = none;
  raft_last_applied_index = none;
  raft_commit_index = none;
  raft_leader_next_index = none;
  raft_prev_log_term = none;
  raft_prev_log_index = none;
  raft_term = none;
  raft_peer_next_index = none;
  raft_candidate_id = none;
  sequence = none;
  last_message = none;
  prev_value = none;
  snapshot = none;
}

-- `entry.values.length + entry.keys.length`, by which the logs estimate their memory.
unfoldable pub weight : {E : Type 0} → HamokMessage E → ℕ
weight m = length m.values + length m.keys
