-- ===== src/Collections/Subscriptions.antt =====
-- src/collections/HamokEmitter.ts, class HamokEmitterSubscriptions: which peers subscribed to which
-- events of a replicated emitter. `M` is the type of the metadata of a subscription, which may be null;
-- `stringify` is JSON.stringify of it.
pub mod Handlers
pub mod Removal
pub mod Import
use hamok_ts.Prelude.{
  string_discrete, String, ite, Bool, true, false, Option, none, some, List, [], ◌∷◌, ◌++◌,
  if◌then◌else◌, string_key,
}
use hamok_ts.JsMap.{JsMap, get, set, delete, has, keys, size, add}

abbrev pub Peers : Type 0 → Type 0
Peers M = JsMap String (Option M)

abbrev pub Subscriptions : Type 0 → Type 0
Subscriptions M = JsMap String (Peers M)

-- What the subscriptions emit.
pub data SubscriptionEvent (M : Type 0) : Type 0 where
  added removed : String → String → Option M → SubscriptionEvent M
  updated : String → String → M → Option M → SubscriptionEvent M

-- The subscriptions after an operation, whether it did something, and what it emitted.
abbrev pub Change : Type 0 → Type 0
Change M = Subscriptions M × Bool × List (SubscriptionEvent M)

module _ {M : Type 0} where
  unfoldable pub has_event : String → Subscriptions M → Bool
  has_event event subscriptions = has event subscriptions

  -- `this._map.get(event)?.get(peerId)`.
  unfoldable pub peer_of : String → String → Subscriptions M → Option (Option M)
  peer_of event peer subscriptions = elim (get event subscriptions) [
    | none ↦ none
    | some peers ↦ get peer peers
  ]

  unfoldable pub has_peer_on_event : String → String → Subscriptions M → Bool
  has_peer_on_event event peer subscriptions = elim (get event subscriptions) [
    | none ↦ false
    | some peers ↦ has peer peers
  ]

  add_to : Option (Peers M) → String → String → Option M → Subscriptions M → Change M
  add_to none event peer meta subscriptions =
      (set event (set peer meta []) subscriptions, true, added event peer meta ∷ [])
  add_to (some peers) event peer meta subscriptions =
      if has peer peers
      then (subscriptions, false, [])
      else (set event (set peer meta peers) subscriptions, true, added event peer meta ∷ [])

  unfoldable pub add_peer : String → String → Option M → Subscriptions M → Change M
  unfolding add_to
  add_peer event peer meta subscriptions =
      add_to (get event subscriptions) event peer meta subscriptions

  -- An expected metadata that is given has to have the text of the present one.
  unfoldable pub meets : (Option M → String) → Option M → Option (Option M) → Bool
  meets stringify current none = true
  meets stringify current (some prev) =
      ite (string_discrete (stringify current) (stringify prev)) true false

  update_at :
      (Option M → String)
      → Option (Peers M)
      → String
      → String
      → M
      → Option (Option M)
      → Subscriptions M
      → Change M
  unfolding meets
  update_at stringify none event peer meta prev subscriptions = (subscriptions, false, [])
  update_at stringify (some peers) event peer meta prev subscriptions = elim (get peer peers) [
    | none ↦ (subscriptions, false, [])
    | some current ↦
        if meets stringify current prev
        then (
          set event (set peer (some meta) peers) subscriptions,
          true,
          updated event peer meta current ∷ [],
        )
        else (subscriptions, false, [])
  ]

  unfoldable pub update_peer :
      (Option M → String) → String → String → M → Option (Option M) → Subscriptions M → Change M
  unfolding update_at
  update_peer stringify event peer meta prev subscriptions =
      update_at stringify (get event subscriptions) event peer meta prev subscriptions

  -- The table without the event when no peer is left.
  unfoldable pub keep_event : String → Peers M → Subscriptions M → Subscriptions M
  keep_event event [] subscriptions = delete event subscriptions
  keep_event event (p ∷ peers) subscriptions = set event (p ∷ peers) subscriptions

  remove_at : Option (Peers M) → String → String → Subscriptions M → Change M
  unfolding keep_event
  remove_at none event peer subscriptions = (subscriptions, false, [])
  remove_at (some peers) event peer subscriptions = elim (get peer peers) [
    | none ↦ (subscriptions, false, [])
    | some meta ↦
        (keep_event event (delete peer peers) subscriptions, true, removed event peer meta ∷ [])
  ]

  unfoldable pub remove_peer : String → String → Subscriptions M → Change M
  unfolding remove_at
  remove_peer event peer subscriptions =
      remove_at (get event subscriptions) event peer subscriptions

  unfoldable pub remove_from_events : String → List String → Subscriptions M → Change M
  unfolding remove_peer
  remove_from_events peer [] subscriptions = (subscriptions, false, [])
  remove_from_events peer (event ∷ events) subscriptions =
      let (left, here, emitted) = remove_peer event peer subscriptions in
      let (after, there, later) = remove_from_events peer events left in
      (after, (if here then true else there), emitted ++ later)

  unfoldable pub remove_peer_from_all_event : String → Subscriptions M → Change M
  unfolding remove_from_events
  remove_peer_from_all_event peer subscriptions =
      remove_from_events peer (keys subscriptions) subscriptions

  unfoldable pub get_peer_ids : String → Subscriptions M → Option (List String)
  get_peer_ids event subscriptions = elim (get event subscriptions) [
    | none ↦ none
    | some peers ↦ some (keys peers)
  ]

  unfoldable pub add_ids : Peers M → List String → List String
  add_ids [] ids = ids
  add_ids ((peer, meta) ∷ peers) ids = add_ids peers (add peer ids)

  unfoldable pub collect_ids : Subscriptions M → List String → List String
  unfolding add_ids
  collect_ids [] ids = ids
  collect_ids ((event, peers) ∷ subscriptions) ids = collect_ids subscriptions (add_ids peers ids)

  unfoldable pub get_all_peer_ids : Subscriptions M → List String
  unfolding collect_ids
  get_all_peer_ids subscriptions = collect_ids subscriptions []
