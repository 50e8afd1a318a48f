-- ===== src/Messages/Storage/Removing.antt =====
-- src/messages/StorageCodec.ts: the messages that remove entries.
use hamok_ts.Prelude.{if_defined, some, Key}
use hamok_ts.Message.{
  HamokMessage, empty_message, remove_entries_request, remove_entries_response,
  remove_entries_notification, entries_removed_notification,
}
use hamok_ts.Messages.Decoding.{Decoded, decoded, asserted, expects}
use hamok_ts.Messages.HamokCodec.{
  encode_keys, decode_keys, encode_entries, decode_entries, StorageCodec,
}
use hamok_ts.Messages.Types.Removals.{
  RemoveEntriesRequest, RemoveEntriesResponse, RemoveEntriesNotification,
  EntriesRemovedNotification,
}

module _ {K V E : Type 0} ⦃key : Key K⦄ (codec : StorageCodec K V) where
  unfoldable pub encode_remove_entries_request : RemoveEntriesRequest K V → HamokMessage E
  encode_remove_entries_request r = record (empty_message) {
    type = some remove_entries_request;
    request_id = some r.request_id;
    keys = encode_keys codec r.keys;
    prev_value = if_defined codec.value_codec.encode r.prev_value;
    source_id = r.source_endpoint_id;
  }

  unfoldable pub decode_remove_entries_request : HamokMessage E → Decoded (RemoveEntriesRequest K V)
  decode_remove_entries_request m = expects remove_entries_request m.type (
      asserted m.request_id (λ id. decoded (record {
        request_id = id;
        keys = decode_keys codec m.keys;
        prev_value = if_defined codec.value_codec.decode m.prev_value;
        source_endpoint_id = m.source_id;
      })))

  unfoldable pub encode_remove_entries_response : RemoveEntriesResponse K V → HamokMessage E
  encode_remove_entries_response r = record (empty_message) {
    type = some remove_entries_response;
    request_id = some r.request_id;
    keys = (encode_entries codec r.removed_entries).0;
    values = (encode_entries codec r.removed_entries).1;
    destination_id = r.destination_endpoint_id;
  }

  unfoldable pub decode_remove_entries_response :
      HamokMessage E → Decoded (RemoveEntriesResponse K V)
  decode_remove_entries_response m = expects remove_entries_response m.type (
      asserted m.request_id (λ id. decoded (record {
        request_id = id;
        removed_entries = decode_entries codec m.keys m.values;
        destination_endpoint_id = m.destination_id;
      })))

  unfoldable pub encode_remove_entries_notification : RemoveEntriesNotification K → HamokMessage E
  encode_remove_entries_notification r = record (empty_message) {
    type = some remove_entries_notification;
    keys = encode_keys codec r.keys;
    source_id = r.source_endpoint_id;
    destination_id = r.destination_endpoint_id;
  }

  unfoldable pub decode_remove_entries_notification :
      HamokMessage E → Decoded (RemoveEntriesNotification K)
  decode_remove_entries_notification m = expects remove_entries_notification m.type (
      decoded (record {
        keys = decode_keys codec m.keys;
        source_endpoint_id = m.source_id;
        destination_endpoint_id = m.destination_id;
      }))

  unfoldable pub encode_entries_removed_notification :
      EntriesRemovedNotification K V → HamokMessage E
  encode_entries_removed_notification r = record (empty_message) {
    type = some entries_removed_notification;
    keys = (encode_entries codec r.entries).0;
    values = (encode_entries codec r.entries).1;
    source_id = r.source_endpoint_id;
    destination_id = r.destination_endpoint_id;
  }

  unfoldable pub decode_entries_removed_notification :
      HamokMessage E → Decoded (EntriesRemovedNotification K V)
  decode_entries_removed_notification m = expects entries_removed_notification m.type (
      decoded (record {
        entries = decode_entries codec m.keys m.values;
        source_endpoint_id = m.source_id;
        destination_endpoint_id = m.destination_id;
      }))
