-- ===== src/Requests/OngoingRequests.antt =====
-- src/messages/OngoingRequestsNotifier.ts: the requests that a peer still works on, of which it tells
-- the peers that wait for them. `timer` tells whether the interval runs.
pub mod Ticks
use hamok_ts.Prelude.{
  string_discrete, String, ite, Bool, true, false, some, List, [], ◌∷◌, map, ltb, if◌then◌else◌,
  number_key, string_key,
}
use hamok_ts.JsMap
use hamok_ts.JsMap.{JsMap}
use hamok_ts.Common.Grouping.{group_array_by}
use hamok_ts.Common.Sets.{set_of}
use hamok_ts.Messages.Types.Grid.{OngoingRequestsNotification}

pub record ActiveOngoingRequest : Type 0 where
  pub request_id : String
  pub remote_peer_id : String
  pub storage_id : String

pub record OngoingRequestsNotifier : Type 0 where
  pub active_ongoing_requests : JsMap String ActiveOngoingRequest
  pub timer : Bool

abbrev pub create_notifier : OngoingRequestsNotifier
create_notifier = record { active_ongoing_requests = []; timer = false }

-- The empty id counts as none.
unfoldable pub has_request : String → OngoingRequestsNotifier → Bool
has_request id n = ite (string_discrete id "") false (JsMap.has id n.active_ongoing_requests)

unfoldable pub add_request :
    ActiveOngoingRequest → OngoingRequestsNotifier → OngoingRequestsNotifier
add_request r n = if JsMap.has r.request_id n.active_ongoing_requests then n else record {
  active_ongoing_requests = JsMap.set r.request_id r n.active_ongoing_requests;
  timer = true;
}

unfoldable pub remove_request : String → OngoingRequestsNotifier → OngoingRequestsNotifier × Bool
remove_request id n =
    let left = JsMap.delete id n.active_ongoing_requests in
    if JsMap.has id n.active_ongoing_requests
    then (
      record {
        active_ongoing_requests = left;
        timer = if ltb (JsMap.size left) 1 then false else n.timer;
      },
      true,
    )
    else (n, false)

unfoldable pub clear_requests : OngoingRequestsNotifier → OngoingRequestsNotifier
clear_requests n = record { active_ongoing_requests = []; timer = false }

-- The groups of the active requests, by the peers that wait for them.
unfoldable pub groups : OngoingRequestsNotifier → JsMap String (List ActiveOngoingRequest)
unfolding group_array_by
groups n =
    group_array_by (λ r. some r.remote_peer_id) (λ r. true) (JsMap.values n.active_ongoing_requests)

notifications : JsMap String (List ActiveOngoingRequest) → List OngoingRequestsNotification
unfolding set_of
notifications [] = []
notifications ((peer, requests) ∷ rest) =
    record {
      request_ids = set_of (map (λ r. r.request_id) requests);
      destination_endpoint_id = some peer;
    }
    ∷ notifications rest

-- What the interval does: with no active request it ends, though the interval itself goes on.
unfoldable pub tick :
    OngoingRequestsNotifier → OngoingRequestsNotifier × List OngoingRequestsNotification
unfolding notifications groups
tick n =
    if ltb (JsMap.size n.active_ongoing_requests) 1
    then (record n { timer = false }, [])
    else (n, notifications (groups n))
