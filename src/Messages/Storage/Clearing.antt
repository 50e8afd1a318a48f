-- ===== src/Messages/Storage/Clearing.antt =====
-- src/messages/StorageCodec.ts: the requests, responses and notifications that clear a storage.
use hamok_ts.Prelude.{some, Key}
use hamok_ts.Message.{
  HamokMessage, empty_message, clear_entries_request, clear_entries_response,
  clear_entries_notification,
}
use hamok_ts.Messages.Decoding.{Decoded, decoded, asserted, expects}
use hamok_ts.Messages.HamokCodec.{StorageCodec}
use hamok_ts.Messages.Types.Queries.{
  ClearEntriesRequest, ClearEntriesResponse, ClearEntriesNotification,
}

module _ {K V E : Type 0} ⦃key : Key K⦄ (codec : StorageCodec K V) where
  unfoldable pub encode_clear_entries_request : ClearEntriesRequest → HamokMessage E
  encode_clear_entries_request r = record (empty_message) {
    type = some clear_entries_request;
    request_id = some r.request_id;
    source_id = r.source_endpoint_id;
  }

  unfoldable pub decode_clear_entries_request : HamokMessage E → Decoded (ClearEntriesRequest)
  decode_clear_entries_request m = expects clear_entries_request m.type (
      asserted m.request_id
        (λ id. decoded (record { request_id = id; source_endpoint_id = m.source_id })))

  unfoldable pub encode_clear_entries_response : ClearEntriesResponse → HamokMessage E
  encode_clear_entries_response r = record (empty_message) {
    type = some clear_entries_response;
    request_id = some r.request_id;
    destination_id = r.destination_endpoint_id;
  }

  unfoldable pub decode_clear_entries_response : HamokMessage E → Decoded (ClearEntriesResponse)
  decode_clear_entries_response m = expects clear_entries_response m.type (
      asserted m.request_id
        (λ id. decoded (record { request_id = id; destination_endpoint_id = m.destination_id })))

  unfoldable pub encode_clear_entries_notification : ClearEntriesNotification → HamokMessage E
  encode_clear_entries_notification r = record (empty_message) {
    type = some clear_entries_notification;
    source_id = r.source_endpoint_id;
    destination_id = r.destination_endpoint_id;
  }

  unfoldable pub decode_clear_entries_notification :
      HamokMessage E → Decoded (ClearEntriesNotification)
  decode_clear_entries_notification m = expects clear_entries_notification m.type (
      decoded
        (record { source_endpoint_id = m.source_id; destination_endpoint_id = m.destination_id }))
