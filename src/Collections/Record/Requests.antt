-- ===== src/Collections/Record/Requests.antt =====
-- src/collections/HamokRecord.ts: the requests of a replicated record in the order of the commits, and
-- the import of a snapshot.
use hamok_ts.Prelude.{String, Bool, true, false, Option, none, some, List, [], ◌∷◌, string_key}
use hamok_ts.JsMap.{JsMap}
use hamok_ts.Collections.PlainObject.{read, assign}
use hamok_ts.Messages.Types.Queries.{ClearEntriesRequest}
use hamok_ts.Messages.Types.Removals.{DeleteEntriesRequest}
use hamok_ts.Messages.Types.Insertions.{InsertEntriesRequest, UpdateEntriesRequest}
use hamok_ts.Collections.Record.{
  Payloads, RecordOutput, emits_insert, emits_update, decode_value, on_clear, on_delete, on_insert,
  on_update,
}

pub data RecordRequest : Type 0 where
  clear_record : ClearEntriesRequest → RecordRequest
  delete_properties : DeleteEntriesRequest String → RecordRequest
  insert_properties : InsertEntriesRequest String String → RecordRequest
  update_properties : UpdateEntriesRequest String String → RecordRequest

module _ {P : Type 0} (payloads : Payloads P) where
  unfoldable pub handle :
      String → RecordRequest → JsMap String P → JsMap String P × List (RecordOutput P)
  unfolding on_clear on_delete on_insert on_update
  handle local (clear_record r) object = on_clear payloads local r object
  handle local (delete_properties r) object = on_delete payloads local r object
  handle local (insert_properties r) object = on_insert payloads local r object
  handle local (update_properties r) object = on_update payloads local r object

  -- The requests of the log, one after the other.
  unfoldable pub handle_all : String → List RecordRequest → JsMap String P → JsMap String P
  unfolding handle
  handle_all local [] object = object
  handle_all local (r ∷ rs) object = handle_all local rs (handle local r object).0

  -- `_import` of the decoded entries of a snapshot: an old value makes it an update. The events go out
  -- as the entries are set.
  import_events : Bool → String → P → Option P → List (RecordOutput P) → List (RecordOutput P)
  import_events false k v old rest = rest
  import_events true k v none rest = emits_insert k v ∷ rest
  import_events true k v (some old) rest = emits_update k old v ∷ rest

  unfoldable pub import_entries :
      JsMap String String → Bool → JsMap String P → JsMap String P × List (RecordOutput P)
  unfolding import_events decode_value
  import_entries [] eventing object = (object, [])
  import_entries ((k, text) ∷ entries) eventing object =
      let v = decode_value payloads k text in
      let (after, events) =
        import_entries entries eventing (assign payloads.prototypes k v object) in
      (after, import_events eventing k v (read payloads.prototypes k object) events)
