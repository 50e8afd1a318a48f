-- ===== src/Messages/Storage/Updating.antt =====
-- src/messages/StorageCodec.ts: the messages that update entries.
use hamok_ts.Prelude.{if_defined, Option, some, List, [], ◌∷◌, Key}
use hamok_ts.Message.{
  HamokMessage, empty_message, Bytes, update_entries_request, update_entries_response,
  update_entries_notification, entry_updated_notification,
}
use hamok_ts.Messages.Decoding.{Decoded, decoded, throws, asserted, expects}
use hamok_ts.Messages.HamokCodec.{encode_entries, decode_entries, StorageCodec}
use hamok_ts.Messages.Types.Insertions.{
  UpdateEntriesRequest, UpdateEntriesResponse, UpdateEntriesNotification, EntryUpdatedNotification,
}

module _ {K V E : Type 0} ⦃key : Key K⦄ (codec : StorageCodec K V) where
  unfoldable pub encode_update_entries_request : UpdateEntriesRequest K V → HamokMessage E
  encode_update_entries_request r = record (empty_message) {
    type = some update_entries_request;
    request_id = some r.request_id;
    keys = (encode_entries codec r.entries).0;
    values = (encode_entries codec r.entries).1;
    source_id = r.source_endpoint_id;
    prev_value = if_defined codec.value_codec.encode r.prev_value;
  }

  unfoldable pub decode_update_entries_request : HamokMessage E → Decoded (UpdateEntriesRequest K V)
  decode_update_entries_request m = expects update_entries_request m.type (
      asserted m.request_id (λ id. decoded (record {
        request_id = id;
        entries = decode_entries codec m.keys m.values;
        source_endpoint_id = m.source_id;
        prev_value = if_defined codec.value_codec.decode m.prev_value;
      })))

  unfoldable pub encode_update_entries_response : UpdateEntriesResponse K V → HamokMessage E
  encode_update_entries_response r = record (empty_message) {
    type = some update_entries_response;
    request_id = some r.request_id;
    keys = (encode_entries codec r.updated_entries).0;
    values = (encode_entries codec r.updated_entries).1;
    destination_id = r.destination_endpoint_id;
  }

  unfoldable pub decode_update_entries_response :
      HamokMessage E → Decoded (UpdateEntriesResponse K V)
  decode_update_entries_response m = expects update_entries_response m.type (
      asserted m.request_id (λ id. decoded (record {
        request_id = id;
        updated_entries = decode_entries codec m.keys m.values;
        destination_endpoint_id = m.destination_id;
      })))

  unfoldable pub encode_update_entries_notification : UpdateEntriesNotification K V → HamokMessage E
  encode_update_entries_notification r = record (empty_message) {
    type = some update_entries_notification;
    keys = (encode_entries codec r.updated_entries).0;
    values = (encode_entries codec r.updated_entries).1;
    source_id = r.source_endpoint_id;
    destination_id = r.destination_endpoint_id;
  }

  unfoldable pub decode_update_entries_notification :
      HamokMessage E → Decoded (UpdateEntriesNotification K V)
  decode_update_entries_notification m = expects update_entries_notification m.type (
      decoded (record {
        updated_entries = decode_entries codec m.keys m.values;
        source_endpoint_id = m.source_id;
        destination_endpoint_id = m.destination_id;
      }))

  unfoldable pub encode_entry_updated_notification : EntryUpdatedNotification K V → HamokMessage E
  encode_entry_updated_notification r = record (empty_message) {
    type = some entry_updated_notification;
    keys = codec.key_codec.encode r.key ∷ [];
    values = codec.value_codec.encode r.new_value ∷ [];
    prev_value = some (codec.value_codec.encode r.old_value);
    source_id = r.source_endpoint_id;
    destination_id = r.destination_endpoint_id;
  }

  read_entry_updated :
      HamokMessage E
      → List Bytes
      → List Bytes
      → Option Bytes
      → Decoded (EntryUpdatedNotification K V)
  read_entry_updated m (k ∷ ks) (v ∷ vs) (some w) = decoded (record {
    key = codec.key_codec.decode k;
    new_value = codec.value_codec.decode v;
    old_value = codec.value_codec.decode w;
    source_endpoint_id = m.source_id;
    destination_endpoint_id = m.destination_id;
  })
  read_entry_updated m _ _ _ = throws

  unfoldable pub decode_entry_updated_notification :
      HamokMessage E → Decoded (EntryUpdatedNotification K V)
  unfolding read_entry_updated
  decode_entry_updated_notification m =
      expects entry_updated_notification m.type (read_entry_updated m m.keys m.values m.prev_value)
