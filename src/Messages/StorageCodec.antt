-- ===== src/Messages/StorageCodec.antt =====
-- src/messages/StorageCodec.ts: the messages of the storage protocol, and the choice of the encoder
-- and of the decoder.
pub mod RoundTrip
use hamok_ts.Prelude.{Option, none, some, Key}
use hamok_ts.JsMap.{JsMap}
use hamok_ts.Message.{
  HamokMessage, MessageType, clear_entries_request, clear_entries_response,
  clear_entries_notification, get_entries_request, get_entries_response, get_keys_request,
  get_keys_response, get_size_request, get_size_response, delete_entries_request,
  delete_entries_response, delete_entries_notification, remove_entries_request,
  remove_entries_response, remove_entries_notification, entries_removed_notification,
  insert_entries_request, insert_entries_response, insert_entries_notification,
  entries_inserted_notification, update_entries_request, update_entries_response,
  update_entries_notification, entry_updated_notification, storage_applied_commit_notification,
  storage_hello_notification, storage_state_notification,
}
use hamok_ts.Messages.Decoding.{Decoded, throws, map_decoded}
use hamok_ts.Messages.HamokCodec.{StorageCodec}
use hamok_ts.Messages.Types.Queries.{
  ClearEntriesRequest, ClearEntriesResponse, ClearEntriesNotification, GetEntriesRequest,
  GetEntriesResponse, GetKeysRequest, GetKeysResponse, GetSizeRequest, GetSizeResponse,
}
use hamok_ts.Messages.Types.Removals.{
  DeleteEntriesRequest, DeleteEntriesResponse, DeleteEntriesNotification, RemoveEntriesRequest,
  RemoveEntriesResponse, RemoveEntriesNotification, EntriesRemovedNotification,
}
use hamok_ts.Messages.Types.Insertions.{
  InsertEntriesRequest, InsertEntriesResponse, InsertEntriesNotification,
  EntriesInsertedNotification, UpdateEntriesRequest, UpdateEntriesResponse,
  UpdateEntriesNotification, EntryUpdatedNotification,
}
use hamok_ts.Messages.Types.States.{
  StorageAppliedCommitNotification, StorageHelloNotification, StorageStateNotification,
}
use hamok_ts.Messages.Storage.Clearing.{
  encode_clear_entries_request, decode_clear_entries_request, encode_clear_entries_response,
  decode_clear_entries_response, encode_clear_entries_notification,
  decode_clear_entries_notification,
}
use hamok_ts.Messages.Storage.Reading.{
  encode_get_entries_request, decode_get_entries_request, encode_get_entries_response,
  decode_get_entries_response, encode_get_keys_request, decode_get_keys_request,
  encode_get_keys_response, decode_get_keys_response, encode_get_size_request,
  decode_get_size_request, encode_get_size_response, decode_get_size_response,
}
use hamok_ts.Messages.Storage.Deleting.{
  encode_delete_entries_request, decode_delete_entries_request, encode_delete_entries_response,
  decode_delete_entries_response, encode_delete_entries_notification,
  decode_delete_entries_notification,
}
use hamok_ts.Messages.Storage.Removing.{
  encode_remove_entries_request, decode_remove_entries_request, encode_remove_entries_response,
  decode_remove_entries_response, encode_remove_entries_notification,
  decode_remove_entries_notification, encode_entries_removed_notification,
  decode_entries_removed_notification,
}
use hamok_ts.Messages.Storage.Inserting.{
  encode_insert_entries_request, decode_insert_entries_request, encode_insert_entries_response,
  decode_insert_entries_response, encode_insert_entries_notification,
  decode_insert_entries_notification, encode_entries_inserted_notification,
  decode_entries_inserted_notification,
}
use hamok_ts.Messages.Storage.Updating.{
  encode_update_entries_request, decode_update_entries_request, encode_update_entries_response,
  decode_update_entries_response, encode_update_entries_notification,
  decode_update_entries_notification, encode_entry_updated_notification,
  decode_entry_updated_notification,
}
use hamok_ts.Messages.Storage.Noting.{
  encode_storage_applied_commit_notification, decode_storage_applied_commit_notification,
  encode_storage_hello_notification, decode_storage_hello_notification,
  encode_storage_state_notification, decode_storage_state_notification,
}

pub data Input (K V : Type 0) : Type 0 where
  clear_request : ClearEntriesRequest → Input K V
  clear_response : ClearEntriesResponse → Input K V
  clear_notification : ClearEntriesNotification → Input K V
  get_request : GetEntriesRequest K → Input K V
  get_response : GetEntriesResponse K V → Input K V
  keys_request : GetKeysRequest → Input K V
  keys_response : GetKeysResponse K → Input K V
  size_request : GetSizeRequest → Input K V
  size_response : GetSizeResponse → Input K V
  delete_request : DeleteEntriesRequest K → Input K V
  delete_response : DeleteEntriesResponse K → Input K V
  delete_notification : DeleteEntriesNotification K → Input K V
  remove_request : RemoveEntriesRequest K V → Input K V
  remove_response : RemoveEntriesResponse K V → Input K V
  remove_notification : RemoveEntriesNotification K → Input K V
  removed_notification : EntriesRemovedNotification K V → Input K V
  insert_request : InsertEntriesRequest K V → Input K V
  insert_response : InsertEntriesResponse K V → Input K V
  insert_notification : InsertEntriesNotification K V → Input K V
  inserted_notification : EntriesInsertedNotification K V → Input K V
  update_request : UpdateEntriesRequest K V → Input K V
  update_response : UpdateEntriesResponse K V → Input K V
  update_notification : UpdateEntriesNotification K V → Input K V
  updated_notification : EntryUpdatedNotification K V → Input K V
  applied_commit_notification : StorageAppliedCommitNotification → Input K V
  storage_hello : StorageHelloNotification → Input K V
  storage_state : StorageStateNotification → Input K V

-- A RemoveEntriesNotification goes to the encoder of the DeleteEntriesNotification, which reads the
-- same fields of it.
unfoldable pub as_delete : {K : Type 0} → RemoveEntriesNotification K → DeleteEntriesNotification K
as_delete n = record {
  keys = n.keys;
  source_endpoint_id = n.source_endpoint_id;
  destination_endpoint_id = n.destination_endpoint_id;
}

module _ {K V E : Type 0} ⦃key : Key K⦄ (codec : StorageCodec K V) where
  unfoldable pub encode : Input K V → HamokMessage E
  unfolding as_delete encode_clear_entries_request encode_clear_entries_response
      encode_clear_entries_notification encode_get_entries_request encode_get_entries_response
      encode_get_keys_request encode_get_keys_response encode_get_size_request
      encode_get_size_response encode_delete_entries_request encode_delete_entries_response
      encode_delete_entries_notification encode_remove_entries_request
      encode_remove_entries_response encode_entries_removed_notification
      encode_insert_entries_request encode_insert_entries_response
      encode_insert_entries_notification encode_entries_inserted_notification
      encode_update_entries_request encode_update_entries_response
      encode_update_entries_notification encode_entry_updated_notification
      encode_storage_applied_commit_notification encode_storage_hello_notification
      encode_storage_state_notification
  encode (clear_request r) = encode_clear_entries_request codec r
  encode (clear_response r) = encode_clear_entries_response codec r
  encode (clear_notification r) = encode_clear_entries_notification codec r
  encode (get_request r) = encode_get_entries_request codec r
  encode (get_response r) = encode_get_entries_response codec r
  encode (keys_request r) = encode_get_keys_request codec r
  encode (keys_response r) = encode_get_keys_response codec r
  encode (size_request r) = encode_get_size_request codec r
  encode (size_response r) = encode_get_size_response codec r
  encode (delete_request r) = encode_delete_entries_request codec r
  encode (delete_response r) = encode_delete_entries_response codec r
  encode (delete_notification r) = encode_delete_entries_notification codec r
  encode (remove_request r) = encode_remove_entries_request codec r
  encode (remove_response r) = encode_remove_entries_response codec r
  encode (remove_notification r) = encode_delete_entries_notification codec (as_delete r)
  encode (removed_notification r) = encode_entries_removed_notification codec r
  encode (insert_request r) = encode_insert_entries_request codec r
  encode (insert_response r) = encode_insert_entries_response codec r
  encode (insert_notification r) = encode_insert_entries_notification codec r
  encode (inserted_notification r) = encode_entries_inserted_notification codec r
  encode (update_request r) = encode_update_entries_request codec r
  encode (update_response r) = encode_update_entries_response codec r
  encode (update_notification r) = encode_update_entries_notification codec r
  encode (updated_notification r) = encode_entry_updated_notification codec r
  encode (applied_commit_notification r) = encode_storage_applied_commit_notification codec r
  encode (storage_hello r) = encode_storage_hello_notification codec r
  encode (storage_state r) = encode_storage_state_notification codec r

  unfoldable pub decode_as : Option MessageType → HamokMessage E → Decoded (Input K V)
  unfolding decode_clear_entries_request decode_clear_entries_response
      decode_clear_entries_notification decode_get_entries_request decode_get_entries_response
      decode_get_keys_request decode_get_keys_response decode_get_size_request
      decode_get_size_response decode_delete_entries_request decode_delete_entries_response
      decode_delete_entries_notification decode_remove_entries_request
      decode_remove_entries_response decode_remove_entries_notification
      decode_entries_removed_notification decode_insert_entries_request
      decode_insert_entries_response decode_insert_entries_notification
      decode_entries_inserted_notification decode_update_entries_request
      decode_update_entries_response decode_update_entries_notification
      decode_entry_updated_notification decode_storage_applied_commit_notification
      decode_storage_hello_notification decode_storage_state_notification
  decode_as (some clear_entries_request) m =
      map_decoded clear_request (decode_clear_entries_request codec m)
  decode_as (some clear_entries_response) m =
      map_decoded clear_response (decode_clear_entries_response codec m)
  decode_as (some clear_entries_notification) m =
      map_decoded clear_notification (decode_clear_entries_notification codec m)
  decode_as (some get_entries_request) m =
      map_decoded get_request (decode_get_entries_request codec m)
  decode_as (some get_entries_response) m =
      map_decoded get_response (decode_get_entries_response codec m)
  decode_as (some get_keys_request) m = map_decoded keys_request (decode_get_keys_request codec m)
  decode_as (some get_keys_response) m =
      map_decoded keys_response (decode_get_keys_response codec m)
  decode_as (some get_size_request) m = map_decoded size_request (decode_get_size_request codec m)
  decode_as (some get_size_response) m =
      map_decoded size_response (decode_get_size_response codec m)
  decode_as (some delete_entries_request) m =
      map_decoded delete_request (decode_delete_entries_request codec m)
  decode_as (some delete_entries_response) m =
      map_decoded delete_response (decode_delete_entries_response codec m)
  decode_as (some delete_entries_notification) m =
      map_decoded delete_notification (decode_delete_entries_notification codec m)
  decode_as (some remove_entries_request) m =
      map_decoded remove_request (decode_remove_entries_request codec m)
  decode_as (some remove_entries_response) m =
      map_decoded remove_response (decode_remove_entries_response codec m)
  decode_as (some remove_entries_notification) m =
      map_decoded remove_notification (decode_remove_entries_notification codec m)
  decode_as (some entries_removed_notification) m =
      map_decoded removed_notification (decode_entries_removed_notification codec m)
  decode_as (some insert_entries_request) m =
      map_decoded insert_request (decode_insert_entries_request codec m)
  decode_as (some insert_entries_response) m =
      map_decoded insert_response (decode_insert_entries_response codec m)
  decode_as (some insert_entries_notification) m =
      map_decoded insert_notification (decode_insert_entries_notification codec m)
  decode_as (some entries_inserted_notification) m =
      map_decoded inserted_notification (decode_entries_inserted_notification codec m)
  decode_as (some update_entries_request) m =
      map_decoded update_request (decode_update_entries_request codec m)
  decode_as (some update_entries_response) m =
      map_decoded update_response (decode_update_entries_response codec m)
  decode_as (some update_entries_notification) m =
      map_decoded update_notification (decode_update_entries_notification codec m)
  decode_as (some entry_updated_notification) m =
      map_decoded updated_notification (decode_entry_updated_notification codec m)
  decode_as (some storage_applied_commit_notification) m =
      map_decoded applied_commit_notification (decode_storage_applied_commit_notification codec m)
  decode_as (some storage_hello_notification) m =
      map_decoded storage_hello (decode_storage_hello_notification codec m)
  decode_as (some storage_state_notification) m =
      map_decoded storage_state (decode_storage_state_notification codec m)
  decode_as _ m = throws

  unfoldable pub decode : HamokMessage E → Decoded (Input K V)
  unfolding decode_as
  decode m = decode_as m.type m
