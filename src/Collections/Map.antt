-- ===== src/Collections/Map.antt =====
-- src/collections/HamokMap.ts: what a replicated map does with the requests that its connection gives
-- it, in the order of the commits. `truthy` tells the values that JavaScript's conditions take as
-- true, `equal_values` is the comparison that the map is given, `local` the id of the local peer.
pub mod Agreement
use hamok_ts.Prelude.{
  string_discrete, ◌+◌, String, ite, Bool, false, Option, none, some, List, [], ◌∷◌, ◌++◌,
  if◌then◌else◌, Key, number_key, string_key,
}
use hamok_ts.JsMap
use hamok_ts.JsMap.{JsMap}
use hamok_ts.Common.Maps.{map_of}
use hamok_ts.Collections.BaseMap.{
  set_all, get_all, insert_all, remove_all, existing, BaseMapUpdateResult,
}
use hamok_ts.Messages.Types.Queries.{
  ClearEntriesRequest, GetEntriesRequest, create_clear_entries_response,
  create_get_entries_response,
}
use hamok_ts.Messages.Types.Removals.{
  DeleteEntriesRequest, RemoveEntriesRequest, create_delete_entries_response,
  create_remove_entries_response,
}
use hamok_ts.Messages.Types.Insertions.{
  InsertEntriesRequest, UpdateEntriesRequest, create_insert_entries_response,
  create_update_entries_response,
}
use hamok_ts.Messages.StorageCodec.{
  Input, clear_response, get_response, delete_response, insert_response, remove_response,
  update_response,
}

pub data MapRequest (K V : Type 0) : Type 0 where
  clear_entries : ClearEntriesRequest → MapRequest K V
  delete_entries : DeleteEntriesRequest K → MapRequest K V
  get_entries : GetEntriesRequest K → MapRequest K V
  insert_entries : InsertEntriesRequest K V → MapRequest K V
  remove_entries : RemoveEntriesRequest K V → MapRequest K V
  update_entries : UpdateEntriesRequest K V → MapRequest K V

-- A response to an endpoint, or an event of the map.
pub data MapOutput (K V : Type 0) : Type 0 where
  responds : Input K V → Option String → MapOutput K V
  emits_clear emits_close : MapOutput K V
  emits_insert emits_remove : K → V → MapOutput K V
  emits_update : K → V → V → MapOutput K V

-- The value under the key is there and equals the expected one.
abbrev pub matches : {V : Type 0} → (V → V → Bool) → Option V → V → Bool
matches equal_values none expected = false
matches equal_values (some v) expected = equal_values v expected

module _ {K V : Type 0} where
  -- `request.sourceEndpointId === localPeerId`, then respond.
  respond_local : String → Option String → Input K V → List (MapOutput K V)
  respond_local local none i = []
  respond_local local (some source) i =
      ite (string_discrete source local) (responds i (some source) ∷ []) []

  emit_removed : List (K × V) → List (MapOutput K V)
  emit_removed [] = []
  emit_removed ((k, v) ∷ entries) = emits_remove k v ∷ emit_removed entries

  emit_inserted : List (K × V) → List (MapOutput K V)
  emit_inserted [] = []
  emit_inserted ((k, v) ∷ entries) = emits_insert k v ∷ emit_inserted entries

  emit_updated : List (K × V × V) → List (MapOutput K V)
  emit_updated [] = []
  emit_updated ((k, old, v) ∷ entries) = emits_update k old v ∷ emit_updated entries

  -- `new Map(updatedEntries.map(([ key, oldValue ]) => [ key, oldValue ]))`.
  old_values : List (K × V × V) → List (K × V)
  old_values [] = []
  old_values ((k, old, v) ∷ entries) = (k, old) ∷ old_values entries

  unfoldable pub on_clear :
      String → ClearEntriesRequest → JsMap K V → JsMap K V × List (MapOutput K V)
  unfolding respond_local
  on_clear local r m = (
    [],
    respond_local local r.source_endpoint_id (clear_response (create_clear_entries_response r))
        ++ emits_clear ∷ [],
  )

module _ {K V : Type 0} ⦃key : Key K⦄ (truthy : V → Bool) where
  unfoldable pub on_delete :
      String → DeleteEntriesRequest K → JsMap K V → JsMap K V × List (MapOutput K V)
  unfolding respond_local emit_removed
  on_delete local r m =
      let (left, removed) = remove_all truthy r.keys m in
      (
        left,
        respond_local local r.source_endpoint_id
              (delete_response (create_delete_entries_response r (JsMap.keys (map_of removed))))
            ++ emit_removed removed,
      )

  unfoldable pub on_get : GetEntriesRequest K → JsMap K V → JsMap K V × List (MapOutput K V)
  on_get r m = (
    m,
    responds (get_response (create_get_entries_response r (get_all truthy r.keys m [])))
          r.source_endpoint_id
        ∷ [],
  )

  -- The entries of the request whose keys were not there.
  not_existing : JsMap K V → JsMap K V → List (K × V)
  not_existing existing [] = []
  not_existing existing ((k, v) ∷ entries) =
      let rest = not_existing existing entries in
      if JsMap.has k existing then rest else (k, v) ∷ rest

  unfoldable pub on_insert :
      String → InsertEntriesRequest K V → JsMap K V → JsMap K V × List (MapOutput K V)
  unfolding respond_local emit_inserted not_existing
  on_insert local r m =
      let (after, existing) = insert_all truthy r.entries m [] in
      (
        after,
        respond_local local r.source_endpoint_id
              (insert_response (create_insert_entries_response r existing))
            ++ emit_inserted (not_existing existing r.entries),
      )

  -- The part of the handler after the condition.
  remove_now : String → RemoveEntriesRequest K V → JsMap K V → JsMap K V × List (MapOutput K V)
  unfolding respond_local emit_removed
  remove_now local r m =
      let (left, removed) = remove_all truthy r.keys m in
      (
        left,
        respond_local local r.source_endpoint_id
              (remove_response (create_remove_entries_response r (map_of removed)))
            ++ emit_removed removed,
      )

  import_outputs : Bool → BaseMapUpdateResult K V → List (MapOutput K V)
  unfolding emit_inserted emit_updated
  import_outputs eventing result =
      if eventing then emit_inserted result.inserted ++ emit_updated result.updated else []

  -- `_import` of the decoded entries of a snapshot.
  unfoldable pub import_entries : JsMap K V → Bool → JsMap K V → JsMap K V × List (MapOutput K V)
  unfolding import_outputs
  import_entries entries eventing m =
      let (after, result) = set_all entries m in (after, import_outputs eventing result)

  module _ (equal_values : V → V → Bool) where
    remove_if :
        Option V
        → List K
        → String
        → RemoveEntriesRequest K V
        → JsMap K V
        → JsMap K V × List (MapOutput K V)
    unfolding remove_now
    remove_if none keys local r m = remove_now local r m
    remove_if (some expected) (k ∷ []) local r m =
        if matches equal_values (existing truthy k m) expected
        then remove_now local r m
        else (m, [])
    remove_if (some expected) _ local r m = (m, [])

    unfoldable pub on_remove :
        String → RemoveEntriesRequest K V → JsMap K V → JsMap K V × List (MapOutput K V)
    unfolding remove_if
    on_remove local r m = remove_if r.prev_value r.keys local r m

    -- The response and the events of an update.
    finish_update :
        String
        → UpdateEntriesRequest K V
        → JsMap K V
        → BaseMapUpdateResult K V
        → JsMap K V × List (MapOutput K V)
    unfolding respond_local emit_inserted emit_updated old_values
    finish_update local r after result = (
      after,
      respond_local local r.source_endpoint_id (
            update_response (create_update_entries_response r (map_of (old_values result.updated))))
          ++ emit_inserted result.inserted
          ++ emit_updated result.updated,
    )

    abbrev no_update : BaseMapUpdateResult K V
    no_update = record { inserted = []; updated = [] }

    update_one :
        Option V
        → K
        → V
        → V
        → String
        → UpdateEntriesRequest K V
        → JsMap K V
        → JsMap K V × List (MapOutput K V)
    unfolding finish_update
    update_one none k v expected local r m = finish_update local r m no_update
    update_one (some old) k v expected local r m =
        if equal_values old expected
        then finish_update local r (JsMap.set k v m)
            (record no_update { updated = (k, old, v) ∷ [] })
        else finish_update local r m no_update

    update_if :
        Option V
        → JsMap K V
        → String
        → UpdateEntriesRequest K V
        → JsMap K V
        → JsMap K V × List (MapOutput K V)
    unfolding update_one
    update_if none entries local r m =
        let (after, result) = set_all entries m in finish_update local r after result
    update_if (some expected) ((k, v) ∷ []) local r m =
        update_one (existing truthy k m) k v expected local r m
    update_if (some expected) _ local r m = (m, [])

    unfoldable pub on_update :
        String → UpdateEntriesRequest K V → JsMap K V → JsMap K V × List (MapOutput K V)
    unfolding update_if
    on_update local r m = update_if r.prev_value r.entries local r m

    unfoldable pub handle : String → MapRequest K V → JsMap K V → JsMap K V × List (MapOutput K V)
    unfolding on_clear on_delete on_get on_insert on_remove on_update
    handle local (clear_entries r) m = on_clear local r m
    handle local (delete_entries r) m = on_delete local r m
    handle local (get_entries r) m = on_get r m
    handle local (insert_entries r) m = on_insert local r m
    handle local (remove_entries r) m = on_remove local r m
    handle local (update_entries r) m = on_update local r m

    -- The requests of the log, one after the other.
    unfoldable pub handle_all : String → List (MapRequest K V) → JsMap K V → JsMap K V
    unfolding handle
    handle_all local [] m = m
    handle_all local (r ∷ rs) m = handle_all local rs (handle local r m).0
