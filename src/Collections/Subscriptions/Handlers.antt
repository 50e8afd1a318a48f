-- ===== src/Collections/Subscriptions/Handlers.antt =====
-- src/collections/HamokEmitter.ts: what a replicated emitter does to its subscriptions with the
-- requests and notifications that its connection gives it. `parse_meta` and `parse_update` are
-- JSON.parse, none where it throws.
use hamok_ts.Prelude.{
  string_discrete, string_key, if◌then◌else◌, String, ite, Bool, true, Option, none, some, List, [],
  ◌∷◌,
}
use hamok_ts.JsMap.{JsMap, set}
use hamok_ts.Messages.Types.Removals.{
  DeleteEntriesRequest, RemoveEntriesRequest, create_delete_entries_response,
  create_remove_entries_response,
}
use hamok_ts.Messages.Types.Insertions.{InsertEntriesRequest, create_insert_entries_response}
use hamok_ts.Messages.StorageCodec.{Input, insert_response, delete_response, remove_response}
use hamok_ts.Common.Sets.{set_of}
use hamok_ts.Collections.Subscriptions.{
  Subscriptions, has_peer_on_event, add_peer, update_peer, remove_peer_from_all_event, Peers,
}

pub record UpdatedMetaData (M : Type 0) : Type 0 where
  pub prev_meta_data : Option (Option M)
  pub new_meta_data : M

pub record MetaData (M : Type 0) : Type 0 where
  pub stringify : Option M → String
  pub parse_meta : String → Option M
  pub parse_update : String → Option (UpdatedMetaData M)

-- The answer to the request's own peer.
answer_local : String → String → Input String String → Option (Input String String)
answer_local local source i = ite (string_discrete source local) (some i) none

module _ {M : Type 0} (data_of : MetaData M) where
  -- Metadata that does not parse leaves the subscriptions as they are.
  subscribe_new : String → String → Option M → Subscriptions M → Subscriptions M
  subscribe_new event source none subscriptions = subscriptions
  subscribe_new event source (some meta) subscriptions =
      (add_peer event source (some meta) subscriptions).0

  update_parsed :
      String → String → Option (UpdatedMetaData M) → Subscriptions M → Subscriptions M × Bool
  update_parsed event source none subscriptions = (subscriptions, true)
  update_parsed event source (some u) subscriptions =
      let change =
        update_peer data_of.stringify event source u.new_meta_data u.prev_meta_data subscriptions in
      (change.0, change.1)

  -- One entry of the request; the flag is false for an update that was refused.
  unfoldable pub insert_entry : String → String → String → Subscriptions M → Subscriptions M × Bool
  unfolding subscribe_new update_parsed
  insert_entry source event text subscriptions =
      if has_peer_on_event event source subscriptions
      then update_parsed event source (data_of.parse_update text) subscriptions
      else (
        ite (string_discrete text "null") ((add_peer event source none subscriptions).0)
            (subscribe_new event source (data_of.parse_meta text) subscriptions),
        true,
      )

  unfoldable pub insert_all_entries :
      String
      → JsMap String String
      → JsMap String String
      → Subscriptions M
      → Subscriptions M × JsMap String String
  unfolding insert_entry
  insert_all_entries source [] refused subscriptions = (subscriptions, refused)
  insert_all_entries source ((event, text) ∷ entries) refused subscriptions =
      let (after, fine) = insert_entry source event text subscriptions in
      insert_all_entries source entries (if fine then refused else set event "not-updated" refused)
        after

  insert_from :
      Option String
      → String
      → InsertEntriesRequest String String
      → Subscriptions M
      → Subscriptions M × Option (Input String String)
  unfolding insert_all_entries answer_local
  insert_from none local r subscriptions = (subscriptions, none)
  insert_from (some source) local r subscriptions =
      let (after, refused) = insert_all_entries source r.entries [] subscriptions in
      (
        after,
        answer_local local source (insert_response (create_insert_entries_response r refused)),
      )

  unfoldable pub on_insert_subscriptions :
      String
      → InsertEntriesRequest String String
      → Subscriptions M
      → Subscriptions M × Option (Input String String)
  unfolding insert_from
  on_insert_subscriptions local r subscriptions =
      insert_from r.source_endpoint_id local r subscriptions

answer_delete : Option String → String → DeleteEntriesRequest String → Option (Input String String)
unfolding answer_local
answer_delete none local r = none
answer_delete (some source) local r =
    answer_local local source (delete_response (create_delete_entries_response r (set_of r.keys)))

module _ {M : Type 0} where
  unfoldable pub remove_peers : List String → Subscriptions M → Subscriptions M
  remove_peers [] subscriptions = subscriptions
  remove_peers (peer ∷ peers) subscriptions =
      remove_peers peers (remove_peer_from_all_event peer subscriptions).0

  unfoldable pub on_delete_subscriptions :
      String
      → DeleteEntriesRequest String
      → Subscriptions M
      → Subscriptions M × Option (Input String String)
  unfolding remove_peers answer_delete
  on_delete_subscriptions local r subscriptions =
      (remove_peers r.keys subscriptions, answer_delete r.source_endpoint_id local r)

  remove_from :
      Option String
      → String
      → RemoveEntriesRequest String String
      → Subscriptions M
      → Subscriptions M × Option (Input String String)
  unfolding answer_local
  remove_from none local r subscriptions = (subscriptions, none)
  remove_from (some source) local r subscriptions = (
    (remove_peer_from_all_event source subscriptions).0,
    answer_local local source (remove_response (create_remove_entries_response r [])),
  )

  unfoldable pub on_remove_subscriptions :
      String
      → RemoveEntriesRequest String String
      → Subscriptions M
      → Subscriptions M × Option (Input String String)
  unfolding remove_from
  on_remove_subscriptions local r subscriptions =
      remove_from r.source_endpoint_id local r subscriptions

  -- The subscribers of an event in a snapshot.
  unfoldable pub export_subscribers : Peers M → List (String × Option M)
  export_subscribers [] = []
  export_subscribers ((peer, meta) ∷ peers) = (peer, meta) ∷ export_subscribers peers

  unfoldable pub export_subscriptions : Subscriptions M → List (String × List (String × Option M))
  unfolding export_subscribers
  export_subscriptions [] = []
  export_subscriptions ((event, peers) ∷ subscriptions) =
      (event, export_subscribers peers) ∷ export_subscriptions subscriptions

  -- `_import`: the subscribers of the snapshot, in its order.
  unfoldable pub import_subscribers : String → Peers M → Subscriptions M → Subscriptions M
  import_subscribers event [] subscriptions = subscriptions
  import_subscribers event ((peer, meta) ∷ peers) subscriptions =
      import_subscribers event peers (add_peer event peer meta subscriptions).0

  unfoldable pub import_subscriptions : List (String × Peers M) → Subscriptions M → Subscriptions M
  unfolding import_subscribers
  import_subscriptions [] subscriptions = subscriptions
  import_subscriptions ((event, peers) ∷ snapshot) subscriptions =
      import_subscriptions snapshot (import_subscribers event peers subscriptions)
