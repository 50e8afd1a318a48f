-- ===== src/Messages/Storage/Inserting.antt =====
-- src/messages/StorageCodec.ts: the messages that insert entries.
use hamok_ts.Prelude.{some, Key}
use hamok_ts.Message.{
  HamokMessage, empty_message, insert_entries_request, insert_entries_response,
  insert_entries_notification, entries_inserted_notification,
}
use hamok_ts.Messages.Decoding.{Decoded, decoded, asserted, expects}
use hamok_ts.Messages.HamokCodec.{encode_entries, decode_entries, StorageCodec}
use hamok_ts.Messages.Types.Insertions.{
  InsertEntriesRequest, InsertEntriesResponse, InsertEntriesNotification,
  EntriesInsertedNotification,
}

module _ {K V E : Type 0} ⦃key : Key K⦄ (codec : StorageCodec K V) where
  unfoldable pub encode_insert_entries_request : InsertEntriesRequest K V → HamokMessage E
  encode_insert_entries_request r = record (empty_message) {
    type = some insert_entries_request;
    request_id = some r.request_id;
    keys = (encode_entries codec r.entries).0;
    values = (encode_entries codec r.entries).1;
    source_id = r.source_endpoint_id;
  }

  unfoldable pub decode_insert_entries_request : HamokMessage E → Decoded (InsertEntriesRequest K V)
  decode_insert_entries_request m = expects insert_entries_request m.type (
      asserted m.request_id (λ id. decoded (record {
        request_id = id;
        entries = decode_entries codec m.keys m.values;
        source_endpoint_id = m.source_id;
      })))

  unfoldable pub encode_insert_entries_response : InsertEntriesResponse K V → HamokMessage E
  encode_insert_entries_response r = record (empty_message) {
    type = some insert_entries_response;
    request_id = some r.request_id;
    keys = (encode_entries codec r.existing_entries).0;
    values = (encode_entries codec r.existing_entries).1;
    destination_id = r.destination_endpoint_id;
  }

  unfoldable pub decode_insert_entries_response :
      HamokMessage E → Decoded (InsertEntriesResponse K V)
  decode_insert_entries_response m = expects insert_entries_response m.type (
      asserted m.request_id (λ id. decoded (record {
        request_id = id;
        existing_entries = decode_entries codec m.keys m.values;
        destination_endpoint_id = m.destination_id;
      })))

  unfoldable pub encode_insert_entries_notification : InsertEntriesNotification K V → HamokMessage E
  encode_insert_entries_notification r = record (empty_message) {
    type = some insert_entries_notification;
    keys = (encode_entries codec r.entries).0;
    values = (encode_entries codec r.entries).1;
    source_id = r.source_endpoint_id;
    destination_id = r.destination_endpoint_id;
  }

  unfoldable pub decode_insert_entries_notification :
      HamokMessage E → Decoded (InsertEntriesNotification K V)
  decode_insert_entries_notification m = expects insert_entries_notification m.type (
      decoded (record {
        entries = decode_entries codec m.keys m.values;
        source_endpoint_id = m.source_id;
        destination_endpoint_id = m.destination_id;
      }))

  unfoldable pub encode_entries_inserted_notification :
      EntriesInsertedNotification K V → HamokMessage E
  encode_entries_inserted_notification r = record (empty_message) {
    type = some entries_inserted_notification;
    keys = (encode_entries codec r.entries).0;
    values = (encode_entries codec r.entries).1;
    source_id = r.source_endpoint_id;
    destination_id = r.destination_endpoint_id;
  }

  unfoldable pub decode_entries_inserted_notification :
      HamokMessage E → Decoded (EntriesInsertedNotification K V)
  decode_entries_inserted_notification m = expects entries_inserted_notification m.type (
      decoded (record {
        entries = decode_entries codec m.keys m.values;
        source_endpoint_id = m.source_id;
        destination_endpoint_id = m.destination_id;
      }))
