-- ===== src/Messages/StorageCodec/RoundTrip.antt =====
-- What a message of the storage protocol is decoded to after it was encoded.
use hamok_ts.Prelude.{
  ◌≡◌, refl, ap, List, Key, none, some, String, Option, if_defined, number_key, string_key,
}
use hamok_ts.JsMap.{JsMap, Unique, Distinct}
use hamok_ts.Messages.Decoding.{decoded, expects}
use hamok_ts.Messages.HamokCodec.{
  StorageCodec, encode_entries, decode_entries, encode_keys, decode_keys,
}
use hamok_ts.Messages.HamokCodec.Laws.{
  same_snapshot, sent_snapshot, decode_set-encode_set, decode_map-encode_map,
}
use hamok_ts.Messages.Storage.Clearing.{
  encode_clear_entries_request, decode_clear_entries_request, encode_clear_entries_response,
  decode_clear_entries_response, encode_clear_entries_notification,
  decode_clear_entries_notification,
}
use hamok_ts.Messages.Storage.Reading.{
  encode_get_entries_request, decode_get_entries_request, encode_get_entries_response,
  decode_get_entries_response, encode_get_keys_request, decode_get_keys_request,
  encode_get_keys_response, decode_get_keys_response, encode_get_size_request,
  decode_get_size_request, encode_get_size_response, decode_get_size_response,
}
use hamok_ts.Messages.Storage.Deleting.{
  encode_delete_entries_request, decode_delete_entries_request, encode_delete_entries_response,
  decode_delete_entries_response, encode_delete_entries_notification,
  decode_delete_entries_notification,
}
use hamok_ts.Messages.Storage.Removing.{
  encode_remove_entries_request, decode_remove_entries_request, encode_remove_entries_response,
  decode_remove_entries_response, decode_remove_entries_notification,
  encode_entries_removed_notification, decode_entries_removed_notification,
}
use hamok_ts.Messages.Storage.Inserting.{
  encode_insert_entries_request, decode_insert_entries_request, encode_insert_entries_response,
  decode_insert_entries_response, encode_insert_entries_notification,
  decode_insert_entries_notification, encode_entries_inserted_notification,
  decode_entries_inserted_notification,
}
use hamok_ts.Messages.Storage.Updating.{
  encode_update_entries_request, decode_update_entries_request, encode_update_entries_response,
  decode_update_entries_response, encode_update_entries_notification,
  decode_update_entries_notification, encode_entry_updated_notification,
  decode_entry_updated_notification,
}
use hamok_ts.Messages.Storage.Noting.{
  encode_storage_applied_commit_notification, decode_storage_applied_commit_notification,
  encode_storage_hello_notification, decode_storage_hello_notification,
  encode_storage_state_notification, decode_storage_state_notification,
}
use hamok_ts.Messages.StorageCodec.{
  Input, encode, decode, as_delete, clear_request, clear_response, clear_notification, get_request,
  get_response, keys_request, keys_response, size_request, size_response, delete_request,
  delete_response, delete_notification, remove_request, remove_response, remove_notification,
  removed_notification, insert_request, insert_response, insert_notification, inserted_notification,
  update_request, update_response, update_notification, updated_notification,
  applied_commit_notification, storage_hello, storage_state,
}

module _ {K V : Type 0} ⦃key : Key K⦄ where
  -- The sets and the maps of a message have no key twice.
  abbrev pub IsSound : Input K V → Type 0
  IsSound (clear_request r) = Unit {0}
  IsSound (clear_response r) = Unit {0}
  IsSound (clear_notification r) = Unit {0}
  IsSound (get_request r) = Distinct r.keys
  IsSound (get_response r) = Unique r.found_entries
  IsSound (keys_request r) = Unit {0}
  IsSound (keys_response r) = Distinct r.keys
  IsSound (size_request r) = Unit {0}
  IsSound (size_response r) = Unit {0}
  IsSound (delete_request r) = Distinct r.keys
  IsSound (delete_response r) = Distinct r.deleted_keys
  IsSound (delete_notification r) = Distinct r.keys
  IsSound (remove_request r) = Distinct r.keys
  IsSound (remove_response r) = Unique r.removed_entries
  IsSound (remove_notification r) = Distinct r.keys
  IsSound (removed_notification r) = Unique r.entries
  IsSound (insert_request r) = Unique r.entries
  IsSound (insert_response r) = Unique r.existing_entries
  IsSound (insert_notification r) = Unique r.entries
  IsSound (inserted_notification r) = Unique r.entries
  IsSound (update_request r) = Unique r.entries
  IsSound (update_response r) = Unique r.updated_entries
  IsSound (update_notification r) = Unique r.updated_entries
  IsSound (updated_notification r) = Unit {0}
  IsSound (applied_commit_notification r) = Unit {0}
  IsSound (storage_hello r) = Unit {0}
  IsSound (storage_state r) = Unit {0}

-- The message that arrives: a notification of removal as one of deletion, a state without an empty
-- snapshot, every other message as it is.
unfoldable pub as_sent : {K V : Type 0} → Input K V → Input K V
unfolding as_delete
as_sent (clear_request r) = clear_request r
as_sent (clear_response r) = clear_response r
as_sent (clear_notification r) = clear_notification r
as_sent (get_request r) = get_request r
as_sent (get_response r) = get_response r
as_sent (keys_request r) = keys_request r
as_sent (keys_response r) = keys_response r
as_sent (size_request r) = size_request r
as_sent (size_response r) = size_response r
as_sent (delete_request r) = delete_request r
as_sent (delete_response r) = delete_response r
as_sent (delete_notification r) = delete_notification r
as_sent (remove_request r) = remove_request r
as_sent (remove_response r) = remove_response r
as_sent (remove_notification r) = delete_notification (as_delete r)
as_sent (removed_notification r) = removed_notification r
as_sent (insert_request r) = insert_request r
as_sent (insert_response r) = insert_response r
as_sent (insert_notification r) = insert_notification r
as_sent (inserted_notification r) = inserted_notification r
as_sent (update_request r) = update_request r
as_sent (update_response r) = update_response r
as_sent (update_notification r) = update_notification r
as_sent (updated_notification r) = updated_notification r
as_sent (applied_commit_notification r) = applied_commit_notification r
as_sent (storage_hello r) = storage_hello r
as_sent (storage_state r) =
    storage_state
      (record r { serialized_storage_snapshot = sent_snapshot r.serialized_storage_snapshot })

module _ {K V : Type 0} ⦃key : Key K⦄ (codec : StorageCodec K V)
    (keys_decode : (k : K) → codec.key_codec.decode (codec.key_codec.encode k) ≡ k)
    (values_decode : (v : V) → codec.value_codec.decode (codec.value_codec.encode v) ≡ v)
    (strings_decode : (s : String) → codec.str_codec.decode (codec.str_codec.encode s) ≡ s) where
  same_keys : (keys : List K) → Distinct keys → decode_keys codec (encode_keys codec keys) ≡ keys
  unfolding decode_keys encode_keys
  same_keys keys u = decode_set-encode_set codec.key_codec keys_decode keys u

  same_entries :
      (entries : JsMap K V)
      → Unique entries
      → decode_entries codec (encode_entries codec entries).0 (encode_entries codec entries).1
        ≡ entries
  unfolding decode_entries encode_entries
  same_entries entries u =
      decode_map-encode_map codec.key_codec codec.value_codec keys_decode values_decode entries u

  same_value :
      (v : Option V)
      → if_defined codec.value_codec.decode (if_defined codec.value_codec.encode v) ≡ v
  same_value none = refl
  same_value (some v) = ap some (values_decode v)

  -- Where the codecs of keys, values and strings give back what they were given, and the sets and
  -- maps of a message have no key twice, every message of the storage protocol is decoded as it
  -- was encoded, but for two cases: a RemoveEntriesNotification arrives as a
  -- DeleteEntriesNotification, and an empty snapshot as none.
  pub decode-encode :
      (E : Type 0) (i : Input K V)
      → IsSound i
      → decode codec (encode {E = E} codec i) ≡ decoded (as_sent i)
  unfolding decode encode as_sent expects encode_clear_entries_request decode_clear_entries_request
      encode_clear_entries_response decode_clear_entries_response encode_clear_entries_notification
      decode_clear_entries_notification encode_get_entries_request decode_get_entries_request
      encode_get_entries_response decode_get_entries_response encode_get_keys_request
      decode_get_keys_request encode_get_keys_response decode_get_keys_response
      encode_get_size_request decode_get_size_request encode_get_size_response
      decode_get_size_response encode_delete_entries_request decode_delete_entries_request
      encode_delete_entries_response decode_delete_entries_response
      encode_delete_entries_notification decode_delete_entries_notification
      encode_remove_entries_request decode_remove_entries_request encode_remove_entries_response
      decode_remove_entries_response decode_remove_entries_notification
      encode_entries_removed_notification decode_entries_removed_notification
      encode_insert_entries_request decode_insert_entries_request encode_insert_entries_response
      decode_insert_entries_response encode_insert_entries_notification
      decode_insert_entries_notification encode_entries_inserted_notification
      decode_entries_inserted_notification encode_update_entries_request
      decode_update_entries_request encode_update_entries_response decode_update_entries_response
      encode_update_entries_notification decode_update_entries_notification
      encode_entry_updated_notification decode_entry_updated_notification
      encode_storage_applied_commit_notification decode_storage_applied_commit_notification
      encode_storage_hello_notification decode_storage_hello_notification
      encode_storage_state_notification decode_storage_state_notification
  decode-encode E (clear_request r) u = refl
  decode-encode E (clear_response r) u = refl
  decode-encode E (clear_notification r) u = refl
  decode-encode E (get_request r) u = rw (same_keys r.keys u) refl
  decode-encode E (get_response r) u = rw (same_entries r.found_entries u) refl
  decode-encode E (keys_request r) u = refl
  decode-encode E (keys_response r) u = rw (same_keys r.keys u) refl
  decode-encode E (size_request r) u = refl
  decode-encode E (size_response r) u = refl
  decode-encode E (delete_request r) u = rw (same_keys r.keys u) refl
  decode-encode E (delete_response r) u = rw (same_keys r.deleted_keys u) refl
  decode-encode E (delete_notification r) u = rw (same_keys r.keys u) refl
  decode-encode E (remove_request r) u = rw (same_keys r.keys u, same_value r.prev_value) refl
  decode-encode E (remove_response r) u = rw (same_entries r.removed_entries u) refl
  decode-encode E (remove_notification r) u =
      ap (λ x. decoded (delete_notification (record (as_delete r) { keys = x })))
        (same_keys r.keys u)
  decode-encode E (removed_notification r) u = rw (same_entries r.entries u) refl
  decode-encode E (insert_request r) u = rw (same_entries r.entries u) refl
  decode-encode E (insert_response r) u = rw (same_entries r.existing_entries u) refl
  decode-encode E (insert_notification r) u = rw (same_entries r.entries u) refl
  decode-encode E (inserted_notification r) u = rw (same_entries r.entries u) refl
  decode-encode E (update_request r) u = rw (same_entries r.entries u, same_value r.prev_value) refl
  decode-encode E (update_response r) u = rw (same_entries r.updated_entries u) refl
  decode-encode E (update_notification r) u = rw (same_entries r.updated_entries u) refl
  decode-encode E (updated_notification r) u =
      rw (keys_decode r.key, values_decode r.new_value, values_decode r.old_value) refl
  decode-encode E (applied_commit_notification r) u = refl
  decode-encode E (storage_hello r) u = refl
  decode-encode E (storage_state r) u =
      ap (λ x. decoded (storage_state (record r { serialized_storage_snapshot = x })))
        (same_snapshot codec.str_codec strings_decode r.serialized_storage_snapshot)
