-- ===== src/Messages/Types/Insertions.antt =====
-- src/messages/messagetypes/InsertEntries.ts and UpdateEntries.ts: the messages by which
-- entries are put into a storage.
use hamok_ts.Prelude.{String, Option}
use hamok_ts.JsMap.{JsMap}

pub record InsertEntriesRequest (K : Type 0) (V : Type 0) : Type 0 where
  pub request_id : String
  pub entries : JsMap K V
  pub source_endpoint_id : Option String

pub record InsertEntriesResponse (K : Type 0) (V : Type 0) : Type 0 where
  pub request_id : String
  pub existing_entries : JsMap K V
  pub destination_endpoint_id : Option String

pub record InsertEntriesNotification (K : Type 0) (V : Type 0) : Type 0 where
  pub entries : JsMap K V
  pub source_endpoint_id : Option String
  pub destination_endpoint_id : Option String

pub record EntriesInsertedNotification (K : Type 0) (V : Type 0) : Type 0 where
  pub entries : JsMap K V
  pub source_endpoint_id : Option String
  pub destination_endpoint_id : Option String

pub record UpdateEntriesRequest (K : Type 0) (V : Type 0) : Type 0 where
  pub request_id : String
  pub entries : JsMap K V
  pub source_endpoint_id : Option String
  pub prev_value : Option V

pub record UpdateEntriesResponse (K : Type 0) (V : Type 0) : Type 0 where
  pub request_id : String
  pub updated_entries : JsMap K V
  pub destination_endpoint_id : Option String

pub record UpdateEntriesNotification (K : Type 0) (V : Type 0) : Type 0 where
  pub updated_entries : JsMap K V
  pub source_endpoint_id : Option String
  pub destination_endpoint_id : Option String

pub record EntryUpdatedNotification (K : Type 0) (V : Type 0) : Type 0 where
  pub key : K
  pub new_value : V
  pub old_value : V
  pub source_endpoint_id : Option String
  pub destination_endpoint_id : Option String

unfoldable pub create_insert_entries_response :
    {K V : Type 0} → InsertEntriesRequest K V → JsMap K V → InsertEntriesResponse K V
create_insert_entries_response r existing_entries = record {
  request_id = r.request_id;
  existing_entries = existing_entries;
  destination_endpoint_id = r.source_endpoint_id;
}

unfoldable pub create_update_entries_response :
    {K V : Type 0} → UpdateEntriesRequest K V → JsMap K V → UpdateEntriesResponse K V
create_update_entries_response r updated_entries = record {
  request_id = r.request_id;
  updated_entries = updated_entries;
  destination_endpoint_id = r.source_endpoint_id;
}
