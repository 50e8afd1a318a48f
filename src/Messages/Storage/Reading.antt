-- ===== src/Messages/Storage/Reading.antt =====
-- src/messages/StorageCodec.ts: the requests that read a storage, and their responses.
use hamok_ts.Prelude.{some, Key}
use hamok_ts.Message.{
  HamokMessage, empty_message, get_entries_request, get_entries_response, get_keys_request,
  get_keys_response, get_size_request, get_size_response,
}
use hamok_ts.Messages.Decoding.{Decoded, decoded, asserted, expects}
use hamok_ts.Messages.HamokCodec.{
  encode_keys, decode_keys, encode_entries, decode_entries, StorageCodec,
}
use hamok_ts.Messages.Types.Queries.{
  GetEntriesRequest, GetEntriesResponse, GetKeysRequest, GetKeysResponse, GetSizeRequest,
  GetSizeResponse,
}

module _ {K V E : Type 0} ⦃key : Key K⦄ (codec : StorageCodec K V) where
  unfoldable pub encode_get_entries_request : GetEntriesRequest K → HamokMessage E
  encode_get_entries_request r = record (empty_message) {
    type = some get_entries_request;
    request_id = some r.request_id;
    keys = encode_keys codec r.keys;
    source_id = r.source_endpoint_id;
  }

  unfoldable pub decode_get_entries_request : HamokMessage E → Decoded (GetEntriesRequest K)
  decode_get_entries_request m = expects get_entries_request m.type (
      asserted m.request_id (λ id. decoded (record {
        request_id = id;
        keys = decode_keys codec m.keys;
        source_endpoint_id = m.source_id;
      })))

  unfoldable pub encode_get_entries_response : GetEntriesResponse K V → HamokMessage E
  encode_get_entries_response r = record (empty_message) {
    type = some get_entries_response;
    request_id = some r.request_id;
    keys = (encode_entries codec r.found_entries).0;
    values = (encode_entries codec r.found_entries).1;
    destination_id = r.destination_endpoint_id;
  }

  unfoldable pub decode_get_entries_response : HamokMessage E → Decoded (GetEntriesResponse K V)
  decode_get_entries_response m = expects get_entries_response m.type (
      asserted m.request_id (λ id. decoded (record {
        request_id = id;
        found_entries = decode_entries codec m.keys m.values;
        destination_endpoint_id = m.destination_id;
      })))

  unfoldable pub encode_get_keys_request : GetKeysRequest → HamokMessage E
  encode_get_keys_request r = record (empty_message) {
    type = some get_keys_request;
    request_id = some r.request_id;
    source_id = r.source_endpoint_id;
  }

  unfoldable pub decode_get_keys_request : HamokMessage E → Decoded (GetKeysRequest)
  decode_get_keys_request m = expects get_keys_request m.type (
      asserted m.request_id
        (λ id. decoded (record { request_id = id; source_endpoint_id = m.source_id })))

  unfoldable pub encode_get_keys_response : GetKeysResponse K → HamokMessage E
  encode_get_keys_response r = record (empty_message) {
    type = some get_keys_response;
    request_id = some r.request_id;
    keys = encode_keys codec r.keys;
    destination_id = r.destination_endpoint_id;
  }

  unfoldable pub decode_get_keys_response : HamokMessage E → Decoded (GetKeysResponse K)
  decode_get_keys_response m = expects get_keys_response m.type (
      asserted m.request_id (λ id. decoded (record {
        request_id = id;
        keys = decode_keys codec m.keys;
        destination_endpoint_id = m.destination_id;
      })))

  unfoldable pub encode_get_size_request : GetSizeRequest → HamokMessage E
  encode_get_size_request r = record (empty_message) {
    type = some get_size_request;
    request_id = some r.request_id;
    source_id = r.source_endpoint_id;
  }

  unfoldable pub decode_get_size_request : HamokMessage E → Decoded (GetSizeRequest)
  decode_get_size_request m = expects get_size_request m.type (
      asserted m.request_id
        (λ id. decoded (record { request_id = id; source_endpoint_id = m.source_id })))

  unfoldable pub encode_get_size_response : GetSizeResponse → HamokMessage E
  encode_get_size_response r = record (empty_message) {
    type = some get_size_response;
    request_id = some r.request_id;
    storage_size = some r.size;
    destination_id = r.destination_endpoint_id;
  }

  unfoldable pub decode_get_size_response : HamokMessage E → Decoded (GetSizeResponse)
  decode_get_size_response m = expects get_size_response m.type (
      asserted m.request_id (λ id. asserted m.storage_size (λ size.
        decoded
          (record { request_id = id; size = size; destination_endpoint_id = m.destination_id }))))
