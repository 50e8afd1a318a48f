-- ===== src/Requests/PendingRequest.antt =====
-- src/messages/PendingRequest.ts: a request that waits for its responses. `promise` is what the promise
-- was settled with; _resolve and _reject are there exactly while the state is pending, since they are
-- set with the state and dropped together with its change. `timer` tells whether a timer runs.
pub mod Settling
use hamok_ts.Prelude.{
  ℕ, zero, suc, ◌+◌, String, Bool, true, false, not, ◌&&◌, Option, none, some, List, [], ◌∷◌, leb,
  if◌then◌else◌, number_key, string_key, length,
}
use hamok_ts.Message.{HamokMessage}
use hamok_ts.JsMap.{JsMap, set, member, keys, values}

pub record PendingRequestConfig : Type 0 where
  pub request_id : String
  pub timeout_in_ms : Option ℕ
  pub needed_responses : Option ℕ
  pub remote_peers : Option (List String)
  pub storage_id : Option String

pub data PendingRequestState : Type 0 where
  pending resolved rejected : PendingRequestState

pub data Settled (E : Type 0) : Type 0 where
  resolved_with : List (HamokMessage E) → Settled E
  rejected_with : String → Settled E

pub record PendingRequest (E : Type 0) : Type 0 where
  pub config : PendingRequestConfig
  pub responses : JsMap String (HamokMessage E)
  pub postponed : Bool
  pub state : PendingRequestState
  pub received_responses : ℕ
  pub timer : Bool
  pub promise : Option (Settled E)

-- `if (this.config.timeoutInMs)`: 0 counts as not given.
abbrev given : Option ℕ → Bool
given none = false
given (some zero) = false
given (some (suc n)) = true

abbrev pub is_pending : PendingRequestState → Bool
is_pending pending = true
is_pending resolved = false
is_pending rejected = false

-- How many of the peers that answered are remote peers of the request.
unfoldable pub answered_peers : List String → List String → ℕ
answered_peers peers [] = 0
answered_peers peers (peer ∷ answering) =
    (if member peer peers then 1 else 0) + answered_peers peers answering

-- `pendingPeerIds < 1`.
no_more_peers : Option (List String) → List String → Bool
unfolding answered_peers
no_more_peers none answering = true
no_more_peers (some peers) answering = leb (length peers) (answered_peers peers answering)

module _ {E : Type 0} where
  unfoldable pub create_request : PendingRequestConfig → PendingRequest E
  create_request config = record {
    config = config;
    responses = [];
    postponed = false;
    state = pending;
    received_responses = 0;
    timer = given config.timeout_in_ms;
    promise = none;
  }

  unfoldable pub completed : PendingRequest E → Bool
  completed r = not (is_pending r.state)

  -- `_resolve`.
  unfoldable pub settle_responses : PendingRequest E → PendingRequest E
  settle_responses r = record r {
    timer = false;
    promise = some (resolved_with (values r.responses));
    state = resolved;
  }

  -- `_reject`.
  unfoldable pub settle_reason : String → PendingRequest E → PendingRequest E
  settle_reason reason r = record r {
    timer = false;
    promise = some (rejected_with reason);
    state = rejected;
  }

  -- The needed responses: every call counts as one received.
  enough_responses : Option ℕ → PendingRequest E → PendingRequest E × Bool
  enough_responses none r = (r, true)
  enough_responses (some zero) r = (r, true)
  enough_responses (some (suc n)) r = (
    record r { received_responses = suc r.received_responses },
    leb (suc n) (suc r.received_responses),
  )

  -- `isReady`.
  unfoldable pub check_ready : PendingRequest E → PendingRequest E × Bool
  unfolding enough_responses no_more_peers
  check_ready r =
      let (counted, enough) = enough_responses r.config.needed_responses r in
      (counted, enough && no_more_peers r.config.remote_peers (keys r.responses))

  refresh_if : PendingRequestState → PendingRequest E → PendingRequest E
  unfolding check_ready settle_responses
  refresh_if pending r =
      let (counted, ready) = check_ready r in if ready then settle_responses counted else counted
  refresh_if resolved r = r
  refresh_if rejected r = r

  unfoldable pub refresh : PendingRequest E → PendingRequest E
  unfolding refresh_if
  refresh r = refresh_if r.state r

  accept_from : Option String → Option String → HamokMessage E → PendingRequest E → PendingRequest E
  unfolding refresh
  accept_from (some source) (some id) m r =
      refresh (record r { responses = set source m r.responses })
  accept_from _ _ m r = r

  unfoldable pub accept_response : HamokMessage E → PendingRequest E → PendingRequest E
  unfolding accept_from
  accept_response m r = accept_from m.source_id m.request_id m r

  reject_if : PendingRequestState → String → PendingRequest E → PendingRequest E
  unfolding settle_reason
  reject_if pending reason r = settle_reason reason r
  reject_if resolved reason r = r
  reject_if rejected reason r = r

  unfoldable pub reject : String → PendingRequest E → PendingRequest E
  unfolding reject_if
  reject reason r = reject_if r.state reason r

  -- The test whether it is ready only warns, and counts a response as it does.
  resolve_if : PendingRequestState → PendingRequest E → PendingRequest E
  unfolding check_ready settle_responses
  resolve_if pending r = let (counted, ready) = check_ready r in settle_responses counted
  resolve_if resolved r = r
  resolve_if rejected r = r

  unfoldable pub resolve : PendingRequest E → PendingRequest E
  unfolding resolve_if
  resolve r = resolve_if r.state r

  unfoldable pub postpone_timeout : PendingRequest E → PendingRequest E
  postpone_timeout r = record r { postponed = true }

  -- When the time is over: the timer runs again if it was postponed, else the promise is rejected.
  elapse_if : Bool → Bool → PendingRequestState → String → PendingRequest E → PendingRequest E
  unfolding settle_reason
  elapse_if false postponed state reason r = r
  elapse_if true true state reason r = record r { postponed = false; timer = true }
  elapse_if true false pending reason r = settle_reason reason (record r { timer = false })
  elapse_if true false _ reason r = record r { timer = false }

  -- The reason is the text that names the request and the received responses.
  unfoldable pub elapse : String → PendingRequest E → PendingRequest E
  unfolding elapse_if
  elapse reason r = elapse_if r.timer r.postponed r.state reason r
