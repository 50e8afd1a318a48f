-- ===== src/Messages/Types/Grid.antt =====
-- src/messages/messagetypes/HelloNotification.ts, JoinNotification.ts, EndpointNotification.ts,
-- OngoingRequests.ts and SubmitMessage.ts: the messages of the grid. `M` is the type of messages.
use hamok_ts.Prelude.{ℕ, ℤ, String, Option, List, Bool, number_key, string_key}

pub record HelloNotification : Type 0 where
  pub source_peer_id : String
  pub destination_peer_id : Option String
  pub raft_leader_id : Option String
  pub custom_data : Option String
  pub request_id : Option String

pub record JoinNotification : Type 0 where
  pub source_peer_id : String
  pub destination_peer_id : Option String

pub record EndpointStatesNotification : Type 0 where
  pub source_endpoint_id : String
  pub destination_endpoint_id : String
  pub term : ℕ
  pub commit_index : ℤ
  pub leader_next_index : ℤ
  pub number_of_logs : ℕ
  pub active_endpoint_ids : Option (List String)
  pub snapshot : Option String
  pub request_id : Option String

pub record OngoingRequestsNotification : Type 0 where
  pub request_ids : List String
  pub destination_endpoint_id : Option String

pub record SubmitMessageRequest (M : Type 0) : Type 0 where
  pub request_id : String
  pub source_endpoint_id : Option String
  pub entry : M
  pub destination_endpoint_id : Option String

pub record SubmitMessageResponse : Type 0 where
  pub request_id : String
  pub success : Bool
  pub destination_endpoint_id : Option String
  pub leader_id : Option String

unfoldable pub create_submit_message_response :
    {M : Type 0} → SubmitMessageRequest M → Bool → Option String → SubmitMessageResponse
create_submit_message_response r success leader_id = record {
  request_id = r.request_id;
  success = success;
  destination_endpoint_id = r.source_endpoint_id;
  leader_id = leader_id;
}
