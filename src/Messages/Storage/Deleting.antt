-- ===== src/Messages/Storage/Deleting.antt =====
-- src/messages/StorageCodec.ts: the messages that delete keys.
use hamok_ts.Prelude.{some, Key}
use hamok_ts.Message.{
  HamokMessage, empty_message, delete_entries_request, delete_entries_response,
  delete_entries_notification,
}
use hamok_ts.Messages.Decoding.{Decoded, decoded, asserted, expects}
use hamok_ts.Messages.HamokCodec.{encode_keys, decode_keys, StorageCodec}
use hamok_ts.Messages.Types.Removals.{
  DeleteEntriesRequest, DeleteEntriesResponse, DeleteEntriesNotification,
}

module _ {K V E : Type 0} ⦃key : Key K⦄ (codec : StorageCodec K V) where
  unfoldable pub encode_delete_entries_request : DeleteEntriesRequest K → HamokMessage E
  encode_delete_entries_request r = record (empty_message) {
    type = some delete_entries_request;
    request_id = some r.request_id;
    keys = encode_keys codec r.keys;
    source_id = r.source_endpoint_id;
  }

  unfoldable pub decode_delete_entries_request : HamokMessage E → Decoded (DeleteEntriesRequest K)
  decode_delete_entries_request m = expects delete_entries_request m.type (
      asserted m.request_id (λ id. decoded (record {
        request_id = id;
        keys = decode_keys codec m.keys;
        source_endpoint_id = m.source_id;
      })))

  unfoldable pub encode_delete_entries_response : DeleteEntriesResponse K → HamokMessage E
  encode_delete_entries_response r = record (empty_message) {
    type = some delete_entries_response;
    request_id = some r.request_id;
    keys = encode_keys codec r.deleted_keys;
    destination_id = r.destination_endpoint_id;
  }

  unfoldable pub decode_delete_entries_response : HamokMessage E → Decoded (DeleteEntriesResponse K)
  decode_delete_entries_response m = expects delete_entries_response m.type (
      asserted m.request_id (λ id. decoded (record {
        request_id = id;
        deleted_keys = decode_keys codec m.keys;
        destination_endpoint_id = m.destination_id;
      })))

  unfoldable pub encode_delete_entries_notification : DeleteEntriesNotification K → HamokMessage E
  encode_delete_entries_notification r = record (empty_message) {
    type = some delete_entries_notification;
    keys = encode_keys codec r.keys;
    source_id = r.source_endpoint_id;
    destination_id = r.destination_endpoint_id;
  }

  unfoldable pub decode_delete_entries_notification :
      HamokMessage E → Decoded (DeleteEntriesNotification K)
  decode_delete_entries_notification m = expects delete_entries_notification m.type (
      decoded (record {
        keys = decode_keys codec m.keys;
        source_endpoint_id = m.source_id;
        destination_endpoint_id = m.destination_id;
      }))
