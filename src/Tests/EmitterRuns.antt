-- ===== src/Tests/EmitterRuns.antt =====
-- Runs of the theorems on the subscriptions of a replicated emitter.
use hamok_ts.Prelude.{string_discrete, ℕ, String, ◌≡◌, refl, none, some, [], ◌∷◌, string_key}
use hamok_ts.JsMap.{get}
use hamok_ts.Messages.Types.Removals.{RemoveEntriesRequest}
use hamok_ts.Collections.Subscriptions.{Subscriptions, peer_of}
use hamok_ts.Collections.Subscriptions.Handlers.{
  on_remove_subscriptions, import_subscriptions, export_subscriptions,
}
use hamok_ts.Collections.Subscriptions.Removal.{peer_of-on_remove}
use hamok_ts.Collections.Subscriptions.Import.{peer_of-import-export}

-- Peer "a" has subscribed to both events.
abbrev two_events : Subscriptions ℕ
two_events = ("x", ("a", none) ∷ ("b", some 3) ∷ []) ∷ ("y", ("a", some 5) ∷ []) ∷ []

abbrev unsubscribe_x : RemoveEntriesRequest String String
unsubscribe_x = record {
  request_id = "r";
  keys = "x" ∷ [];
  prev_value = none;
  source_endpoint_id = some "a";
}

peer_of-on_remove_example :
    peer_of "y" "a" (on_remove_subscriptions "b" unsubscribe_x two_events).0 ≡ none
unfolding string_discrete
peer_of-on_remove_example = peer_of-on_remove "b" "a" unsubscribe_x two_events "y" "a" refl

peer_of-import-export_example :
    peer_of "x" "b" (import_subscriptions (export_subscriptions two_events) [])
    ≡ peer_of "x" "b" two_events
unfolding get string_discrete
peer_of-import-export_example = peer_of-import-export two_events "x" "b" (refl, (refl, tt))
