-- ===== src/Messages/GridCodec.antt =====
-- src/messages/HamokGridCodec.ts: how the messages of the grid are put into a HamokMessage and read
-- from one. `str_codec` is the platform's UTF-8. The submitted message is an embedded one.
pub mod RoundTrip
use hamok_ts.Prelude.{
  String, false, Option, none, some, List, [], ◌∷◌, or_else, number_key, string_key, if_defined,
}
use hamok_ts.JsMap.{add}
use hamok_ts.Message.{
  HamokMessage, MessageType, Bytes, empty_message, hello_notification, join_notification,
  endpoint_states_notification, ongoing_requests_notification, submit_message_request,
  submit_message_response, grid_communication_protocol,
}
use hamok_ts.Messages.Decoding.{untyped, Decoded, decoded, throws, asserted, expects, map_decoded}
use hamok_ts.Messages.HamokCodec.{HamokCodec, encode_snapshot, encode_set, decode_set, add_all}
use hamok_ts.Messages.Types.Grid.{
  HelloNotification, JoinNotification, EndpointStatesNotification, OngoingRequestsNotification,
  SubmitMessageRequest, SubmitMessageResponse,
}

pub data GridInput (M : Type 0) : Type 0 where
  hello : HelloNotification → GridInput M
  join : JoinNotification → GridInput M
  endpoint_states : EndpointStatesNotification → GridInput M
  ongoing_requests : OngoingRequestsNotification → GridInput M
  submit_request : SubmitMessageRequest M → GridInput M
  submit_response : SubmitMessageResponse → GridInput M

-- `setToArray`: an array that is not given becomes the empty one of the message.
abbrev pub set_to_array : Option (List String) → List String
set_to_array none = []
set_to_array (some ids) = ids

-- `arrayToSet` of the array of a message, which is always there.
unfoldable pub array_to_set : List String → Option (List String)
array_to_set ids = some (add_all ids [])

-- `customData ? [ encode(customData) ] : []`.
abbrev pub custom_keys : Option Bytes → List Bytes
custom_keys none = []
custom_keys (some b) = b ∷ []

abbrev pub read_custom : HamokCodec String Bytes → List Bytes → Option String
read_custom str_codec [] = none
read_custom str_codec (b ∷ []) = some (str_codec.decode b)
read_custom str_codec (b ∷ c ∷ rest) = none

module _ {E : Type 0} (str_codec : HamokCodec String Bytes) where
  unfoldable pub encode_hello_notification : HelloNotification → HamokMessage (HamokMessage E)
  encode_hello_notification n = record (empty_message) {
    protocol = some grid_communication_protocol;
    type = some hello_notification;
    source_id = some n.source_peer_id;
    destination_id = n.destination_peer_id;
    raft_leader_id = n.raft_leader_id;
    keys = custom_keys (encode_snapshot str_codec n.custom_data);
    request_id = n.request_id;
  }

  unfoldable pub decode_hello_notification :
      HamokMessage (HamokMessage E) → Decoded HelloNotification
  decode_hello_notification m = expects hello_notification m.type (
      asserted m.source_id (λ source. decoded (record {
        source_peer_id = source;
        destination_peer_id = m.destination_id;
        raft_leader_id = m.raft_leader_id;
        custom_data = read_custom str_codec m.keys;
        request_id = m.request_id;
      })))

  unfoldable pub encode_join_notification : JoinNotification → HamokMessage (HamokMessage E)
  encode_join_notification n = record (empty_message) {
    protocol = some grid_communication_protocol;
    type = some join_notification;
    source_id = some n.source_peer_id;
    destination_id = n.destination_peer_id;
  }

  unfoldable pub decode_join_notification : HamokMessage (HamokMessage E) → Decoded JoinNotification
  decode_join_notification m = expects join_notification m.type (
      asserted m.source_id (λ source.
        decoded (record { source_peer_id = source; destination_peer_id = m.destination_id })))

  unfoldable pub encode_endpoint_states_notification :
      EndpointStatesNotification → HamokMessage (HamokMessage E)
  encode_endpoint_states_notification n = record (empty_message) {
    protocol = some grid_communication_protocol;
    type = some endpoint_states_notification;
    source_id = some n.source_endpoint_id;
    destination_id = some n.destination_endpoint_id;
    raft_term = some n.term;
    raft_commit_index = some n.commit_index;
    raft_leader_next_index = some n.leader_next_index;
    raft_number_of_logs = some n.number_of_logs;
    active_endpoint_ids = set_to_array n.active_endpoint_ids;
    snapshot = encode_snapshot str_codec n.snapshot;
    request_id = n.request_id;
  }

  unfoldable pub decode_endpoint_states_notification :
      HamokMessage (HamokMessage E) → Decoded EndpointStatesNotification
  unfolding array_to_set
  decode_endpoint_states_notification m = expects endpoint_states_notification m.type (
      asserted m.source_id (λ source. asserted m.destination_id (λ destination.
        asserted m.raft_term (λ term. asserted m.raft_commit_index (λ commit_index.
          asserted m.raft_leader_next_index (λ next_index. asserted m.raft_number_of_logs (λ number.
            decoded (record {
              source_endpoint_id = source;
              destination_endpoint_id = destination;
              term = term;
              commit_index = commit_index;
              leader_next_index = next_index;
              number_of_logs = number;
              active_endpoint_ids = array_to_set m.active_endpoint_ids;
              snapshot = if_defined str_codec.decode m.snapshot;
              request_id = m.request_id;
            }))))))))

  unfoldable pub encode_ongoing_requests_notification :
      OngoingRequestsNotification → HamokMessage (HamokMessage E)
  unfolding encode_set
  encode_ongoing_requests_notification n = record (empty_message) {
    type = some ongoing_requests_notification;
    destination_id = n.destination_endpoint_id;
    keys = encode_set n.request_ids str_codec;
  }

  unfoldable pub decode_ongoing_requests_notification :
      HamokMessage (HamokMessage E) → Decoded OngoingRequestsNotification
  unfolding decode_set
  decode_ongoing_requests_notification m = expects ongoing_requests_notification m.type (
      decoded (record {
        request_ids = decode_set m.keys str_codec;
        destination_endpoint_id = m.destination_id;
      }))

  unfoldable pub encode_submit_message_request :
      SubmitMessageRequest (HamokMessage E) → HamokMessage (HamokMessage E)
  encode_submit_message_request r = record (empty_message) {
    type = some submit_message_request;
    request_id = some r.request_id;
    embedded_messages = r.entry ∷ [];
    source_id = r.source_endpoint_id;
    destination_id = r.destination_endpoint_id;
  }

  -- Of several embedded messages the first is taken. The source of a request may be undefined in the
  -- class, and passes as it is.
  first_entry : {B : Type 0} → List (HamokMessage E) → (HamokMessage E → Decoded B) → Decoded B
  first_entry [] f = untyped
  first_entry (entry ∷ rest) f = f entry

  unfoldable pub decode_submit_message_request :
      HamokMessage (HamokMessage E) → Decoded (SubmitMessageRequest (HamokMessage E))
  unfolding first_entry
  decode_submit_message_request m = expects submit_message_request m.type (
      asserted m.request_id (λ id. first_entry m.embedded_messages (λ entry. decoded (record {
        request_id = id;
        source_endpoint_id = m.source_id;
        entry = entry;
        destination_endpoint_id = m.destination_id;
      }))))

  unfoldable pub encode_submit_message_response :
      SubmitMessageResponse → HamokMessage (HamokMessage E)
  encode_submit_message_response r = record (empty_message) {
    type = some submit_message_response;
    request_id = some r.request_id;
    success = some r.success;
    destination_id = r.destination_endpoint_id;
    raft_leader_id = r.leader_id;
  }

  -- The endpoint and the leader may be undefined in the class, and pass as they are.
  unfoldable pub decode_submit_message_response :
      HamokMessage (HamokMessage E) → Decoded SubmitMessageResponse
  decode_submit_message_response m = expects submit_message_response m.type (
      asserted m.request_id (λ id. decoded (record {
        request_id = id;
        success = or_else m.success false;
        destination_endpoint_id = m.destination_id;
        leader_id = m.raft_leader_id;
      })))

  unfoldable pub encode_grid : GridInput (HamokMessage E) → HamokMessage (HamokMessage E)
  unfolding encode_hello_notification encode_join_notification encode_endpoint_states_notification
      encode_ongoing_requests_notification encode_submit_message_request
      encode_submit_message_response
  encode_grid (hello n) = encode_hello_notification n
  encode_grid (join n) = encode_join_notification n
  encode_grid (endpoint_states n) = encode_endpoint_states_notification n
  encode_grid (ongoing_requests n) = encode_ongoing_requests_notification n
  encode_grid (submit_request r) = encode_submit_message_request r
  encode_grid (submit_response r) = encode_submit_message_response r

  unfoldable pub decode_grid_as :
      Option MessageType → HamokMessage (HamokMessage E) → Decoded (GridInput (HamokMessage E))
  unfolding decode_hello_notification decode_join_notification decode_endpoint_states_notification
      decode_ongoing_requests_notification decode_submit_message_request
      decode_submit_message_response
  decode_grid_as (some hello_notification) m = map_decoded hello (decode_hello_notification m)
  decode_grid_as (some join_notification) m = map_decoded join (decode_join_notification m)
  decode_grid_as (some endpoint_states_notification) m =
      map_decoded endpoint_states (decode_endpoint_states_notification m)
  decode_grid_as (some ongoing_requests_notification) m =
      map_decoded ongoing_requests (decode_ongoing_requests_notification m)
  decode_grid_as (some submit_message_request) m =
      map_decoded submit_request (decode_submit_message_request m)
  decode_grid_as (some submit_message_response) m =
      map_decoded submit_response (decode_submit_message_response m)
  decode_grid_as _ m = throws

  unfoldable pub decode_grid : HamokMessage (HamokMessage E) → Decoded (GridInput (HamokMessage E))
  unfolding decode_grid_as
  decode_grid m = decode_grid_as m.type m
