-- ===== src/Messages/Types/Queries.antt =====
-- src/messages/messagetypes/ClearEntries.ts, GetEntries.ts, GetKeys.ts and GetSize.ts: the messages that
-- clear or read a storage.
use hamok_ts.Prelude.{ℕ, String, Option, List}
use hamok_ts.JsMap.{JsMap}

pub record ClearEntriesRequest : Type 0 where
  pub request_id : String
  pub source_endpoint_id : Option String

pub record ClearEntriesResponse : Type 0 where
  pub request_id : String
  pub destination_endpoint_id : Option String

pub record ClearEntriesNotification : Type 0 where
  pub source_endpoint_id : Option String
  pub destination_endpoint_id : Option String

pub record GetEntriesRequest (K : Type 0) : Type 0 where
  pub request_id : String
  pub keys : List K
  pub source_endpoint_id : Option String

pub record GetEntriesResponse (K : Type 0) (V : Type 0) : Type 0 where
  pub request_id : String
  pub found_entries : JsMap K V
  pub destination_endpoint_id : Option String

pub record GetKeysRequest : Type 0 where
  pub request_id : String
  pub source_endpoint_id : Option String

pub record GetKeysResponse (K : Type 0) : Type 0 where
  pub request_id : String
  pub keys : List K
  pub destination_endpoint_id : Option String

pub record GetSizeRequest : Type 0 where
  pub request_id : String
  pub source_endpoint_id : Option String

pub record GetSizeResponse : Type 0 where
  pub request_id : String
  pub size : ℕ
  pub destination_endpoint_id : Option String

unfoldable pub create_clear_entries_response : ClearEntriesRequest → ClearEntriesResponse
create_clear_entries_response r = record {
  request_id = r.request_id;
  destination_endpoint_id = r.source_endpoint_id;
}

unfoldable pub create_get_entries_response :
    {K V : Type 0} → GetEntriesRequest K → JsMap K V → GetEntriesResponse K V
create_get_entries_response r found_entries = record {
  request_id = r.request_id;
  found_entries = found_entries;
  destination_endpoint_id = r.source_endpoint_id;
}

unfoldable pub create_get_keys_response : {K : Type 0} → GetKeysRequest → List K → GetKeysResponse K
create_get_keys_response r keys = record {
  request_id = r.request_id;
  keys = keys;
  destination_endpoint_id = r.source_endpoint_id;
}

unfoldable pub create_get_size_response : GetSizeRequest → ℕ → GetSizeResponse
create_get_size_response r size = record {
  request_id = r.request_id;
  size = size;
  destination_endpoint_id = r.source_endpoint_id;
}
