-- ===== src/Requests/OngoingRequests/Ticks.antt =====
-- The timer of the notifier, and whom it tells of a request.
use hamok_ts.Prelude.{String, ◌≡◌, refl, not, List, [], ◌∷◌, arith, ltb, number_key, string_key}
use hamok_ts.JsMap
use hamok_ts.JsMap.{JsMap, Unique}
use hamok_ts.JsMap.Laws.{length-set, length-delete}
use hamok_ts.Requests.OngoingRequests.{
  ActiveOngoingRequest, OngoingRequestsNotifier, add_request, remove_request, clear_requests, tick,
}

pub data NotifierCall : Type 0 where
  addition : ActiveOngoingRequest → NotifierCall
  removal : String → NotifierCall
  clearing ticking : NotifierCall

unfoldable pub call : NotifierCall → OngoingRequestsNotifier → OngoingRequestsNotifier
call (addition r) n = add_request r n
call (removal id) n = (remove_request id n).0
call clearing n = clear_requests n
call ticking n = (tick n).0

unfoldable pub calls : List NotifierCall → OngoingRequestsNotifier → OngoingRequestsNotifier
unfolding call
calls [] n = n
calls (c ∷ cs) n = calls cs (call c n)

-- The interval runs exactly while there is a request to tell of.
abbrev pub IsTimed : OngoingRequestsNotifier → Type 0
IsTimed n = n.timer ≡ not (ltb (JsMap.size n.active_ongoing_requests) 1)

call-IsTimed : (c : NotifierCall) (n : OngoingRequestsNotifier) → IsTimed n → IsTimed (call c n)
unfolding call add_request remove_request clear_requests tick JsMap.has
call-IsTimed (addition r) n h = ground (arith, length-set r.request_id r n.active_ongoing_requests)
call-IsTimed (removal id) n h = ground (arith, length-delete id n.active_ongoing_requests)
call-IsTimed clearing n h = refl
call-IsTimed ticking n h = ground arith

pub calls-IsTimed :
    (cs : List NotifierCall) (n : OngoingRequestsNotifier) → IsTimed n → IsTimed (calls cs n)
unfolding calls
calls-IsTimed [] n h = h
calls-IsTimed (c ∷ cs) n h = calls-IsTimed cs (call c n) (call-IsTimed c n h)
