-- ===== src/Collections/Record.antt =====
-- src/collections/HamokRecord.ts: what a replicated record does with each request that its connection
-- gives it. `P` is the type of the values of the object's properties. The codecs of the properties and
-- JSON and the prototypes of objects are the parameters of `Payloads`; the encoded values are texts that
-- JSON.parse takes, and what an object inherits is taken for a value that JSON.stringify has a text of.
pub mod Requests
pub mod Agreement
use hamok_ts.Prelude.{
  string_discrete, ◌+◌, ◌-◌, String, ite, Bool, true, false, ◌&&◌, Option, none, some, List, [],
  ◌∷◌, ◌++◌, if◌then◌else◌, number_key, string_key,
}
use hamok_ts.JsMap.{JsMap, keys}
use hamok_ts.Collections.PlainObject.{Prototypes, read, assign, remove}
use hamok_ts.Common.Maps.{map_of}
use hamok_ts.Messages.HamokCodec.{HamokCodec}
use hamok_ts.Messages.Types.Queries.{ClearEntriesRequest, create_clear_entries_response}
use hamok_ts.Messages.Types.Removals.{DeleteEntriesRequest, create_delete_entries_response}
use hamok_ts.Messages.Types.Insertions.{
  InsertEntriesRequest, UpdateEntriesRequest, create_insert_entries_response,
  create_update_entries_response,
}
use hamok_ts.Messages.StorageCodec.{
  Input, clear_response, delete_response, insert_response, update_response,
}

-- `codec_as_value` is a codec taken for a value, which _decodeValue gives back where there is one.
pub record Payloads (P : Type 0) : Type 0 where
  pub payloads_codec : String → Option (HamokCodec P String)
  pub codec_as_value : HamokCodec P String → P
  pub stringify : P → String
  pub parse : String → P
  pub parse_object : String → JsMap String P
  pub equal_values : Option P → P → Bool
  pub truthy : P → Bool
  pub prototypes : Prototypes P

pub data RecordOutput (P : Type 0) : Type 0 where
  responds : Input String String → Option String → RecordOutput P
  emits_clear : RecordOutput P
  emits_insert emits_remove : String → P → RecordOutput P
  emits_update : String → P → P → RecordOutput P

module _ {P : Type 0} (payloads : Payloads P) where
  encode_with : Option (HamokCodec P String) → P → String
  encode_with none v = payloads.stringify v
  encode_with (some codec) v = codec.encode v

  -- `_encodeValue`.
  unfoldable pub encode_value : String → P → String
  unfolding encode_with
  encode_value k v = encode_with (payloads.payloads_codec k) v

  decode_with : Option (HamokCodec P String) → String → P
  decode_with none text = payloads.parse text
  decode_with (some codec) text = payloads.codec_as_value codec

  -- `_decodeValue`.
  unfoldable pub decode_value : String → String → P
  unfolding decode_with
  decode_value k text = decode_with (payloads.payloads_codec k) text

  respond_local : String → Option String → Input String String → List (RecordOutput P)
  respond_local local none i = []
  respond_local local (some source) i =
      ite (string_discrete source local) (responds i (some source) ∷ []) []

  unfoldable pub on_clear :
      String → ClearEntriesRequest → JsMap String P → JsMap String P × List (RecordOutput P)
  unfolding respond_local
  on_clear local r object = (
    [],
    respond_local local r.source_endpoint_id (clear_response (create_clear_entries_response r))
        ++ emits_clear ∷ [],
  )

  -- The loop over the keys, with the entries that were removed.
  unfoldable pub delete_keys : List String → JsMap String P → JsMap String P × List (String × P)
  delete_keys [] object = (object, [])
  delete_keys (k ∷ ks) object =
      let (left, removed) = delete_keys ks (remove k object) in
      let (same, others) = delete_keys ks object in
      elim (read payloads.prototypes k object) [
        | none ↦ (same, others)
        | some v ↦ (left, (k, v) ∷ removed)
      ]

  emit_removed : List (String × P) → List (RecordOutput P)
  emit_removed [] = []
  emit_removed ((k, v) ∷ entries) = emits_remove k v ∷ emit_removed entries

  encoded : List (String × P) → List (String × String)
  unfolding encode_value
  encoded [] = []
  encoded ((k, v) ∷ entries) = (k, encode_value k v) ∷ encoded entries

  unfoldable pub on_delete :
      String → DeleteEntriesRequest String → JsMap String P → JsMap String P × List (RecordOutput P)
  unfolding delete_keys emit_removed encoded respond_local
  on_delete local r object =
      let (left, removed) = delete_keys r.keys object in
      (
        left,
        emit_removed removed
            ++ respond_local local r.source_endpoint_id (
                delete_response
                  (create_delete_entries_response r (keys (map_of (encoded removed))))),
      )

  -- The loop over the entries, with those that were there before and those that are new.
  unfoldable pub insert_new :
      JsMap String String → JsMap String P → JsMap String P × List (String × P) × List (String × P)
  unfolding decode_value
  insert_new [] object = (object, [], [])
  insert_new ((k, text) ∷ entries) object =
      let v = decode_value k text in
      let (same, existing, inserted) = insert_new entries object in
      let (after, later_existing, later_inserted) =
        insert_new entries (assign payloads.prototypes k v object) in
      elim (read payloads.prototypes k object) [
        | none ↦ (after, later_existing, (k, v) ∷ later_inserted)
        | some old ↦ (same, (k, old) ∷ existing, inserted)
      ]

  emit_inserted : List (String × P) → List (RecordOutput P)
  emit_inserted [] = []
  emit_inserted ((k, v) ∷ entries) = emits_insert k v ∷ emit_inserted entries

  emit_updated : List (String × P × P) → List (RecordOutput P)
  emit_updated [] = []
  emit_updated ((k, old, v) ∷ entries) = emits_update k old v ∷ emit_updated entries

  unfoldable pub on_insert :
      String
      → InsertEntriesRequest String String
      → JsMap String P
      → JsMap String P × List (RecordOutput P)
  unfolding insert_new emit_inserted encoded respond_local
  on_insert local r object =
      let (after, existing, inserted) = insert_new r.entries object in
      (
        after,
        emit_inserted inserted
            ++ respond_local local r.source_endpoint_id
                (insert_response (create_insert_entries_response r (map_of (encoded existing)))),
      )

  -- What a new value is reported as; `counts` tells the old values that make it an update.
  report_one :
      (P → Bool)
      → String
      → P
      → Option P
      → List (String × P) × List (String × P × P)
      → List (String × P) × List (String × P × P)
  report_one counts k v none (inserted, updated) = ((k, v) ∷ inserted, updated)
  report_one counts k v (some old) (inserted, updated) =
      if counts old then (inserted, (k, old, v) ∷ updated) else ((k, v) ∷ inserted, updated)

  -- The loop that sets every entry.
  unfoldable pub set_entries :
      (P → Bool)
      → JsMap String String
      → JsMap String P
      → JsMap String P × (List (String × P) × List (String × P × P))
  unfolding decode_value report_one
  set_entries counts [] object = (object, ([], []))
  set_entries counts ((k, text) ∷ entries) object =
      let v = decode_value k text in
      let (after, reports) = set_entries counts entries (assign payloads.prototypes k v object) in
      (after, report_one counts k v (read payloads.prototypes k object) reports)

  -- Every expected value equals the one of the object.
  unfoldable pub all_expected : JsMap String P → JsMap String P → Bool
  all_expected [] object = true
  all_expected ((k, v) ∷ expected) object =
      payloads.equal_values (read payloads.prototypes k object) v && all_expected expected object

  -- The answer to a conditional update.
  answer : String → UpdateEntriesRequest String String → String → List (RecordOutput P)
  unfolding respond_local
  answer local r text = respond_local local r.source_endpoint_id (
      update_response
        (create_update_entries_response r (map_of (("update-if-response-key", text) ∷ []))))

  update_expected :
      String
      → UpdateEntriesRequest String String
      → String
      → JsMap String P
      → JsMap String P × List (RecordOutput P)
  unfolding set_entries all_expected answer emit_inserted emit_updated
  update_expected local r prev object =
      let (after, reports) = set_entries payloads.truthy r.entries object in
      if all_expected (payloads.parse_object prev) object
      then (after, answer local r "true" ++ emit_inserted reports.0 ++ emit_updated reports.1)
      else (object, answer local r "false")

  old_values : List (String × P × P) → List (String × P)
  old_values [] = []
  old_values ((k, old, v) ∷ entries) = (k, old) ∷ old_values entries

  update_always :
      String
      → UpdateEntriesRequest String String
      → JsMap String P
      → JsMap String P × List (RecordOutput P)
  unfolding set_entries respond_local encoded old_values emit_inserted emit_updated
  update_always local r object =
      let (after, reports) = set_entries (λ old. true) r.entries object in
      (
        after,
        respond_local local r.source_endpoint_id (
              update_response
                (create_update_entries_response r (map_of (encoded (old_values reports.1)))))
            ++ emit_inserted reports.0
            ++ emit_updated reports.1,
      )

  update_if :
      Option String
      → String
      → UpdateEntriesRequest String String
      → JsMap String P
      → JsMap String P × List (RecordOutput P)
  unfolding update_expected update_always
  update_if none local r object = update_always local r object
  update_if (some prev) local r object =
      ite (string_discrete prev "") (update_always local r object)
        (update_expected local r prev object)

  -- Both listeners: an empty expected text counts as none.
  unfoldable pub on_update :
      String
      → UpdateEntriesRequest String String
      → JsMap String P
      → JsMap String P × List (RecordOutput P)
  unfolding update_if
  on_update local r object = update_if r.prev_value local r object
