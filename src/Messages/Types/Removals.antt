-- ===== src/Messages/Types/Removals.antt =====
-- src/messages/messagetypes/DeleteEntries.ts and RemoveEntries.ts: the messages by which
-- entries leave a storage.
use hamok_ts.Prelude.{String, Option, List}
use hamok_ts.JsMap.{JsMap}

pub record DeleteEntriesRequest (K : Type 0) : Type 0 where
  pub request_id : String
  pub keys : List K
  pub source_endpoint_id : Option String

pub record DeleteEntriesResponse (K : Type 0) : Type 0 where
  pub request_id : String
  pub deleted_keys : List K
  pub destination_endpoint_id : Option String

pub record DeleteEntriesNotification (K : Type 0) : Type 0 where
  pub keys : List K
  pub source_endpoint_id : Option String
  pub destination_endpoint_id : Option String

pub record RemoveEntriesRequest (K : Type 0) (V : Type 0) : Type 0 where
  pub request_id : String
  pub keys : List K
  pub prev_value : Option V
  pub source_endpoint_id : Option String

pub record RemoveEntriesResponse (K : Type 0) (V : Type 0) : Type 0 where
  pub request_id : String
  pub removed_entries : JsMap K V
  pub destination_endpoint_id : Option String

pub record RemoveEntriesNotification (K : Type 0) : Type 0 where
  pub keys : List K
  pub source_endpoint_id : Option String
  pub destination_endpoint_id : Option String

pub record EntriesRemovedNotification (K : Type 0) (V : Type 0) : Type 0 where
  pub entries : JsMap K V
  pub source_endpoint_id : Option String
  pub destination_endpoint_id : Option String

unfoldable pub create_delete_entries_response :
    {K : Type 0} → DeleteEntriesRequest K → List K → DeleteEntriesResponse K
create_delete_entries_response r deleted_keys = record {
  request_id = r.request_id;
  deleted_keys = deleted_keys;
  destination_endpoint_id = r.source_endpoint_id;
}

unfoldable pub create_remove_entries_response :
    {K V : Type 0} → RemoveEntriesRequest K V → JsMap K V → RemoveEntriesResponse K V
create_remove_entries_response r removed_entries = record {
  request_id = r.request_id;
  removed_entries = removed_entries;
  destination_endpoint_id = r.source_endpoint_id;
}
