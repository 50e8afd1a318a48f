-- ===== src/Collections/Emitter.antt =====
-- src/collections/HamokEmitter.ts: the events that a replicated emitter publishes and receives. `A` is
-- the type of the arguments of an event. The codec of the arguments and whether the local emitter has a
-- listener of an event are parameters.
pub mod Notifying
use hamok_ts.Prelude.{
  string_discrete, ℕ, ◌+◌, String, ite, Bool, true, false, ◌&&◌, Option, none, some, List, [], ◌∷◌,
  ◌++◌, leb, length, if◌then◌else◌, string_key,
}
use hamok_ts.JsMap.{JsMap, keys, member}
use hamok_ts.Messages.Types.Queries.{ClearEntriesNotification}
use hamok_ts.Messages.Types.Insertions.{
  UpdateEntriesRequest, UpdateEntriesNotification, create_update_entries_response,
}
use hamok_ts.Messages.StorageCodec.{Input, update_response}
use hamok_ts.Collections.Subscriptions.{
  Subscriptions, get_peer_ids, get_all_peer_ids, remove_peer_from_all_event,
}

-- `decode` is none where it throws.
pub record Arguments (A : Type 0) : Type 0 where
  pub encode : String → A → String
  pub decode : String → String → Option A
  pub listens : String → Bool

pub data EmitterOutput (A : Type 0) : Type 0 where
  emits_event : String → A → EmitterOutput A
  notifies_update : JsMap String String → String → EmitterOutput A
  requests_update : JsMap String String → List String → EmitterOutput A
  responds_update : Input String String → Option String → EmitterOutput A

-- `remotePeerIds.delete(peerId)`, and `filter((peerId) => peerId !== localPeerId)`.
unfoldable pub other_peers : String → List String → List String
other_peers local [] = []
other_peers local (peer ∷ peers) =
    let rest = other_peers local peers in ite (string_discrete peer local) rest (peer ∷ rest)

module _ {A : Type 0} (arguments : Arguments A) where
  emit_decoded : String → Option A → List (EmitterOutput A) × ℕ → List (EmitterOutput A) × ℕ
  emit_decoded event none (outputs, received) = (outputs, received)
  emit_decoded event (some args) (outputs, received) =
      (emits_event event args ∷ outputs, received + 1)

  -- The loop over the entries, for listeners that do not throw: what is emitted, and by how much the number of received events grows.
  unfoldable pub receive_events : JsMap String String → List (EmitterOutput A) × ℕ
  unfolding emit_decoded
  receive_events [] = ([], 0)
  receive_events ((event, text) ∷ entries) =
      emit_decoded event (arguments.decode event text) (receive_events entries)

  unfoldable pub on_update_request :
      String → UpdateEntriesRequest String String → List (EmitterOutput A) × ℕ
  unfolding receive_events
  on_update_request local r =
      let (outputs, received) = receive_events r.entries in
      (
        outputs
            ++ responds_update
                (update_response (create_update_entries_response r ((local, "empty") ∷ [])))
                r.source_endpoint_id
              ∷ [],
        received,
      )

  unfoldable pub on_update_notification :
      UpdateEntriesNotification String String → List (EmitterOutput A) × ℕ
  unfolding receive_events
  on_update_notification n = receive_events n.updated_entries

  -- The loop over the subscribed peers.
  unfoldable pub notify_peers : String → String → A → String → List String → List (EmitterOutput A)
  notify_peers local event args text [] = []
  notify_peers local event args text (peer ∷ peers) =
      ite (string_discrete peer local) (emits_event event args)
        (notifies_update ((event, text) ∷ []) peer)
      ∷ notify_peers local event args text peers

  only_local : String → List String → Bool
  only_local local peers = leb (length peers) 1 && member local peers

  -- What `notify` gives back, what goes out, and by how much the number of sent events grows.
  notify_to : String → String → A → List String → Bool × List (EmitterOutput A) × ℕ
  unfolding notify_peers only_local
  notify_to local event args [] = (false, [], 0)
  notify_to local event args (peer ∷ peers) =
      if only_local local (peer ∷ peers)
      then (arguments.listens event, emits_event event args ∷ [], 0)
      else (true, notify_peers local event args (arguments.encode event args) (peer ∷ peers), 1)

  notify_some : String → String → A → Option (List String) → Bool × List (EmitterOutput A) × ℕ
  unfolding notify_to
  notify_some local event args none = (false, [], 0)
  notify_some local event args (some peers) = notify_to local event args peers

  -- None where the emitter is closed, which throws.
  unfoldable pub notify :
      {M : Type 0}
      → Bool
      → String
      → String
      → A
      → Subscriptions M
      → Option (Bool × List (EmitterOutput A) × ℕ)
  unfolding notify_some
  notify closed local event args subscriptions =
      if closed
      then none
      else some (notify_some local event args (get_peer_ids event subscriptions))

  -- What goes out at a call of `publish`, and by how much the number of sent events grows.
  publish_to : String → String → A → List String → List (EmitterOutput A) × ℕ
  unfolding only_local other_peers
  publish_to local event args [] = ([], 0)
  publish_to local event args (peer ∷ peers) =
      if only_local local (peer ∷ peers) then (emits_event event args ∷ [], 0) else (
        requests_update ((event, arguments.encode event args) ∷ [])
              (other_peers local (peer ∷ peers))
            ∷ (if member local (peer ∷ peers) then emits_event event args ∷ [] else []),
        1,
      )

  publish_some : String → String → A → Option (List String) → List (EmitterOutput A) × ℕ
  unfolding publish_to
  publish_some local event args none = ([], 0)
  publish_some local event args (some peers) = publish_to local event args peers

  -- None where the emitter is closed, which throws.
  unfoldable pub publish :
      {M : Type 0}
      → Bool
      → String
      → String
      → A
      → Subscriptions M
      → Option (List (EmitterOutput A) × ℕ)
  unfolding publish_some
  publish closed local event args subscriptions =
      if closed
      then none
      else some (publish_some local event args (get_peer_ids event subscriptions))

  -- What `publish` resolves to when the subscribed peers of the call have answered.
  publish_result : String → String → List String → JsMap String String → List String
  unfolding only_local
  publish_result local event [] responses = []
  publish_result local event (peer ∷ peers) responses =
      if only_local local (peer ∷ peers)
      then local ∷ []
      else (keys responses
          ++ (if member local (peer ∷ peers) && arguments.listens event then local ∷ [] else []))

-- `cleanup`: the subscribed peers that are not in the grid any more.
unfoldable pub departed_peers : List String → List String → List String
unfolding other_peers
departed_peers [] ids = ids
departed_peers (remote ∷ remotes) ids = departed_peers remotes (other_peers remote ids)

module _ {M : Type 0} where
  unfoldable pub cleanup : String → List String → Subscriptions M → List String
  unfolding departed_peers other_peers
  cleanup local remotes subscriptions =
      departed_peers remotes (other_peers local (get_all_peer_ids subscriptions))

  clear_from : Option String → Subscriptions M → Subscriptions M
  clear_from none subscriptions = subscriptions
  clear_from (some source) subscriptions = (remove_peer_from_all_event source subscriptions).0

  unfoldable pub on_clear_notification :
      ClearEntriesNotification → Subscriptions M → Subscriptions M
  unfolding clear_from
  on_clear_notification n subscriptions = clear_from n.source_endpoint_id subscriptions
