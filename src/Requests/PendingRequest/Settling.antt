-- ===== src/Requests/PendingRequest/Settling.antt =====
-- When a pending request is settled, and that it is settled once.
use hamok_ts.Requests.PendingRequest.{
  pending, resolved, rejected, is_pending, pending, settle_responses, no_more_peers,
  enough_responses, elapse_if, check_ready, answered_peers, resolve_if, reject_if, elapse, reject,
  postpone_timeout, refresh_if, resolved_with, resolve, accept_from, refresh, PendingRequestState,
  accept_response, completed, PendingRequest,
}
use hamok_ts.Prelude.{
  ◌+◌, ◌≤◌, String, ◌≡◌, refl, ◌∙◌, Bool, true, false, not, ◌&&◌, Option, none, some, List, [], ◌∷◌,
  arith, leb, if◌then◌else◌, number_key, string_key, length,
}
use hamok_ts.Message.{HamokMessage}
use hamok_ts.JsMap.{JsMap, set, member, keys, values, get, Unique, Distinct}
use hamok_ts.JsMap.Laws.{set-Unique}

-- What can happen to a request.
pub data RequestEvent (E : Type 0) : Type 0 where
  response : HamokMessage E → RequestEvent E
  refreshed resolution postponement : RequestEvent E
  rejection elapsed : String → RequestEvent E

module _ {E : Type 0} where
  unfoldable pub on_event : RequestEvent E → PendingRequest E → PendingRequest E
  on_event (response m) r = accept_response m r
  on_event refreshed r = refresh r
  on_event resolution r = resolve r
  on_event postponement r = postpone_timeout r
  on_event (rejection reason) r = reject reason r
  on_event (elapsed reason) r = elapse reason r

  unfoldable pub on_events : List (RequestEvent E) → PendingRequest E → PendingRequest E
  unfolding on_event
  on_events [] r = r
  on_events (e ∷ es) r = on_events es (on_event e r)

  settled_refresh :
      (s : PendingRequestState) (r : PendingRequest E)
      → not (is_pending s) ≡ true
      → refresh_if s r ≡ r
  unfolding refresh_if
  settled_refresh pending r h = absurd cc
  settled_refresh resolved r h = refl
  settled_refresh rejected r h = refl

  settled_resolve :
      (s : PendingRequestState) (r : PendingRequest E)
      → not (is_pending s) ≡ true
      → resolve_if s r ≡ r
  unfolding resolve_if
  settled_resolve pending r h = absurd cc
  settled_resolve resolved r h = refl
  settled_resolve rejected r h = refl

  settled_reject :
      (s : PendingRequestState) (reason : String) (r : PendingRequest E)
      → not (is_pending s) ≡ true
      → reject_if s reason r ≡ r
  unfolding reject_if
  settled_reject pending reason r h = absurd cc
  settled_reject resolved reason r h = refl
  settled_reject rejected reason r h = refl

  -- The state and the promise are the same.
  abbrev pub SameOutcome : PendingRequest E → PendingRequest E → Type 0
  SameOutcome r s = (s.state ≡ r.state) × (s.promise ≡ r.promise)

  settled_accept :
      (source id : Option String) (m : HamokMessage E) (r : PendingRequest E)
      → not (is_pending r.state) ≡ true
      → SameOutcome r (accept_from source id m r)
  unfolding accept_from refresh
  settled_accept none id m r h = (refl, refl)
  settled_accept (some source) none m r h = (refl, refl)
  settled_accept (some source) (some id) m r h =
      rw (settled_refresh r.state (record r { responses = set source m r.responses }) h)
        (refl, refl)

  settled_elapse :
      (timer postponed : Bool) (s : PendingRequestState) (reason : String) (r : PendingRequest E)
      → not (is_pending s) ≡ true
      → SameOutcome r (elapse_if timer postponed s reason r)
  unfolding elapse_if
  settled_elapse false postponed s reason r h = (refl, refl)
  settled_elapse true true s reason r h = (refl, refl)
  settled_elapse true false pending reason r h = absurd cc
  settled_elapse true false resolved reason r h = (refl, refl)
  settled_elapse true false rejected reason r h = (refl, refl)

  settled_event :
      (e : RequestEvent E) (r : PendingRequest E)
      → completed r ≡ true
      → SameOutcome r (on_event e r)
  unfolding on_event completed accept_response refresh reject resolve postpone_timeout elapse
  settled_event (response m) r h = settled_accept m.source_id m.request_id m r h
  settled_event refreshed r h = rw (settled_refresh r.state r h) (refl, refl)
  settled_event resolution r h = rw (settled_resolve r.state r h) (refl, refl)
  settled_event postponement r h = (refl, refl)
  settled_event (rejection reason) r h = rw (settled_reject r.state reason r h) (refl, refl)
  settled_event (elapsed reason) r h = settled_elapse r.timer r.postponed r.state reason r h

  -- A request that is resolved or rejected keeps its state and the result of its promise, whatever
  -- responses, refreshes, resolutions, rejections, postponements and timeouts follow.
  pub settled_stays :
      (es : List (RequestEvent E)) (r : PendingRequest E)
      → completed r ≡ true
      → SameOutcome r (on_events es r)
  unfolding on_events completed
  settled_stays [] r h = (refl, refl)
  settled_stays (e ∷ es) r h =
      let (state, promise) = settled_event e r h in
      let (later_state, later_promise) = settled_stays es (on_event e r) (rw (state) h) in
      (later_state ∙ state, later_promise ∙ promise)

-- The responses of every peer are there.
abbrev pub all_in : List String → List String → Bool
all_in [] answering = true
all_in (p ∷ peers) answering = member p answering && all_in peers answering

answered_none : (answering : List String) → answered_peers [] answering ≡ 0
unfolding answered_peers member
answered_none [] = refl
answered_none (a ∷ answering) = omega (arith, answered_none answering)

answered_cons :
    (p : String) (peers answering : List String)
    → member p peers ≡ false
    → Distinct answering
    → answered_peers (p ∷ peers) answering
      ≡ (if member p answering then 1 else 0) + answered_peers peers answering
unfolding answered_peers member
answered_cons p peers [] h d = refl
answered_cons p peers (a ∷ answering) h d = ground (arith, answered_cons p peers answering h d.1)

answered_bound :
    (peers answering : List String)
    → Distinct peers
    → Distinct answering
    → answered_peers peers answering ≤ length peers
answered_bound [] answering d e = omega (arith, answered_none answering)
answered_bound (p ∷ peers) answering d e =
    ground (arith, answered_cons p peers answering d.0 e, answered_bound peers answering d.1 e)

-- The count says whether all have answered.
all_answered :
    (peers answering : List String)
    → Distinct peers
    → Distinct answering
    → leb (length peers) (answered_peers peers answering) ≡ all_in peers answering
all_answered [] answering d e = ground (arith, answered_none answering)
all_answered (p ∷ peers) answering d e =
    let rest = all_answered peers answering d.1 e in
    let bounded = answered_bound peers answering d.1 e in
    ground (arith, answered_cons p peers answering d.0 e)

member-keys :
    {V : Type 0} (k : String) (m : JsMap String V) → get k m ≡ none → member k (keys m) ≡ false
unfolding get member
member-keys k [] h = refl
member-keys k ((j, v) ∷ m) h = ground (arith, member-keys k m)

keys-Distinct : {V : Type 0} (m : JsMap String V) → Unique m → Distinct (keys m)
keys-Distinct [] u = tt
keys-Distinct ((k, v) ∷ m) u = (member-keys k m u.0, keys-Distinct m u.1)

module _ {E : Type 0} where
  refresh-promise :
      (r : PendingRequest E) (peers : List String)
      → r.state ≡ pending
      → r.config.needed_responses ≡ none
      → r.config.remote_peers ≡ some peers
      → (refresh r).promise ≡ (
          if leb (length peers) (answered_peers peers (keys r.responses))
          then some (resolved_with (values r.responses))
          else r.promise)
  unfolding refresh refresh_if check_ready enough_responses no_more_peers settle_responses
  refresh-promise r peers p n q = ground arith

  -- A response to a pending request that needs no number of responses but those of a set of remote
  -- peers settles its promise, with all responses, exactly when every one of these peers has
  -- answered; otherwise the promise is as it was.
  pub accept_response-promise :
      (r : PendingRequest E) (m : HamokMessage E) (peers : List String) (source id : String)
      → r.state ≡ pending
      → r.config.needed_responses ≡ none
      → r.config.remote_peers ≡ some peers
      → Distinct peers
      → Unique r.responses
      → m.source_id ≡ some source
      → m.request_id ≡ some id
      → (accept_response m r).promise ≡ (
          if all_in peers (keys (set source m r.responses))
          then some (resolved_with (values (set source m r.responses)))
          else r.promise)
  unfolding accept_response accept_from refresh refresh_if check_ready enough_responses
      no_more_peers settle_responses
  accept_response-promise r m peers source id p n q d u s i =
      let answered = record r { responses = set source m r.responses } in
      let told = keys-Distinct answered.responses (set-Unique source m r.responses u) in
      let same = all_answered peers (keys answered.responses) d told in
      let settled = refresh-promise answered peers p n q in ground arith
