-- ===== src/Tests/WorkRuns.antt =====
-- Runs of the theorems on the helpers, the queues of work, the map and the connection.
use hamok_ts.Prelude.{
  string_discrete, ℕ, ℕ_discrete, ◌+◌, ◌≡◌, refl, Bool, true, false, Option, none, some, List, [],
  ◌∷◌, ◌++◌, arith, ltb, ◌==◌, number_key, string_key, length, String, ite, if◌then◌else◌,
}
use hamok_ts.JsMap
use hamok_ts.JsMap.{JsMap, Unique}
use hamok_ts.Message.{HamokMessage, empty_message, clear_entries_request}
use hamok_ts.Common.Maps.{split_map}
use hamok_ts.Common.Maps.Splitting.{split_map_lem, joined, AreFilled}
use hamok_ts.Common.Grouping.{get-group_array_by, group_array_by, merged, items_with}
use hamok_ts.Work.ConcurrentExecutor.{ConcurrentExecutor, create}
use hamok_ts.Work.ConcurrentExecutor.Limit.{
  Reaches, here, then_act, execution, act, Bounded, end_tasks, Reaches-Bounded, Reaches-drains,
}
use hamok_ts.Messages.Types.Insertions.{UpdateEntriesRequest}
use hamok_ts.Collections.Map.{MapRequest, handle_all, on_update, update_entries}
use hamok_ts.Collections.Map.Agreement.{get-handle_all, next_all, second_update_fails}
use hamok_ts.Collections.PlainObject.{read}
use hamok_ts.Collections.Record.Agreement
use hamok_ts.Collections.Record.{Payloads}
use hamok_ts.Collections.Record.Requests
use hamok_ts.Collections.Record.Requests.{RecordRequest, insert_properties, update_properties}
use hamok_ts.Collections.Connection.{HamokConnection, accept_all, finish_join}
use hamok_ts.Collections.Connection.Order.{Increasing, applied_indices, accept_all-IsOrdered}
use hamok_ts.Collections.Connection.Replay.{finish_join-skips}
use hamok_ts.Logs.{LogEntry}
use hamok_ts.Tests.MessageRuns.{storage_codec}

abbrev three_entries : JsMap ℕ ℕ
three_entries = (1, 5) ∷ (2, 6) ∷ (3, 7) ∷ []

abbrev two_parts : List (JsMap ℕ ℕ)
two_parts = ((1, 5) ∷ (2, 6) ∷ []) ∷ ((3, 7) ∷ []) ∷ []

three_entries-Unique : Unique three_entries
unfolding JsMap.get ℕ_discrete
three_entries-Unique = (refl, (refl, (refl, tt)))

two_parts_split : split_map three_entries 2 none ≡ some two_parts
unfolding split_map JsMap.set ℕ_discrete
two_parts_split = refl

split_map_lem_example : (joined two_parts ≡ three_entries) × AreFilled 2 two_parts
split_map_lem_example =
    split_map_lem three_entries 2 none two_parts three_entries-Unique (omega arith) two_parts_split

abbrev first_of : ℕ × ℕ → Option ℕ
first_of e = some e.0

abbrev any : ℕ × ℕ → Bool
any e = true

get-group_array_by_example :
    JsMap.get 2 (group_array_by first_of any three_entries)
    ≡ merged first_of any none (items_with first_of any 2 three_entries)
get-group_array_by_example = get-group_array_by first_of any 2 three_entries

abbrev idle : ConcurrentExecutor ℕ
idle = record {
  parked = [];
  tasks = [];
  semaphore = 1;
  max_concurrency_level = 1;
  started = [];
  running = 0;
}

idle_created : create 1 ≡ some idle
unfolding create
idle_created = refl

unfoldable busy : ConcurrentExecutor ℕ
unfolding act
busy = act (execution 8 false) (act (execution 7 false) idle)

busy_reached : Reaches idle busy
unfolding busy
busy_reached = then_act (then_act here (execution 7 false) tt) (execution 8 false) tt

Reaches-Bounded_example : Bounded busy
Reaches-Bounded_example = Reaches-Bounded 1 idle busy idle_created busy_reached

Reaches-drains_example :
    let after = end_tasks (length busy.tasks + busy.running) busy in
    (after.tasks ≡ []) × (after.running ≡ 0) × (after.started ≡ busy.started ++ busy.tasks)
Reaches-drains_example = Reaches-drains 1 idle busy idle_created busy_reached

abbrev truthy_number : ℕ → Bool
truthy_number n = ltb 0 n

abbrev same_number : ℕ → ℕ → Bool
same_number a b = a == b

abbrev update_to : ℕ → UpdateEntriesRequest ℕ ℕ
update_to v = record {
  request_id = "r";
  entries = (1, v) ∷ [];
  source_endpoint_id = some "a";
  prev_value = some 5;
}

abbrev two_updates : List (MapRequest ℕ ℕ)
two_updates = update_entries (update_to 6) ∷ update_entries (update_to 7) ∷ []

abbrev five : ℕ → Option ℕ
five k = JsMap.get k ((1, 5) ∷ [])

get-handle_all_example :
    JsMap.get 1 (handle_all truthy_number same_number "b" two_updates ((1, 5) ∷ []))
    ≡ next_all truthy_number same_number two_updates five 1
unfolding JsMap.get
get-handle_all_example =
    get-handle_all truthy_number same_number "b" two_updates ((1, 5) ∷ []) five 1
      ((refl, tt), ((refl, tt), tt)) (λ k. refl)

second_update_fails_example :
    JsMap.get 1
      (on_update truthy_number same_number "b"
        (update_to 7)
        (on_update truthy_number same_number "b" (update_to 6) ((1, 5) ∷ [])).0).0
    ≡ some 6
unfolding JsMap.get ℕ_discrete
second_update_fails_example =
    second_update_fails truthy_number same_number "b" (update_to 6) (update_to 7) ((1, 5) ∷ []) 1 5
      6 7 refl refl refl refl refl refl refl refl

abbrev cleared : HamokMessage ℕ
cleared = record (empty_message) {
  type = some clear_entries_request;
  storage_id = some "s";
  request_id = some "r";
}

abbrev joined_connection : HamokConnection ℕ
joined_connection = record {
  storage_id = "s";
  local_peer_id = "a";
  closed = false;
  connected = true;
  joined = true;
  joining = false;
  applied = 3;
  buffered_messages = [];
}

abbrev committed_messages : List (HamokMessage ℕ × Option ℕ)
committed_messages = (cleared, some 3) ∷ (cleared, some 2) ∷ (cleared, some 5) ∷ []

accept_all-IsOrdered_example :
    Increasing 3
      (accept_all storage_codec committed_messages joined_connection).0.applied
      (applied_indices (accept_all storage_codec committed_messages joined_connection).1)
accept_all-IsOrdered_example =
    accept_all-IsOrdered storage_codec committed_messages joined_connection

-- A message that was committed at 6 waits, and the log has entries from 4 on.
abbrev waiting_connection : HamokConnection ℕ
waiting_connection = record joined_connection {
  joined = false;
  buffered_messages = (cleared, some 6) ∷ [];
}

abbrev entry_at : ℕ → LogEntry ℕ
entry_at i = record { index = i; term = 1; entry = cleared; timestamp = i }

abbrev missing_entries : List (LogEntry ℕ)
missing_entries = entry_at 4 ∷ entry_at 5 ∷ entry_at 6 ∷ []

finish_join-skips_example :
    let after = finish_join storage_codec (some 4) 7 missing_entries waiting_connection in
    Increasing 6 after.0.applied (applied_indices after.1)
finish_join-skips_example =
    finish_join-skips storage_codec (some 4) 7 missing_entries waiting_connection cleared 6 refl
      refl (omega arith)

-- A record whose values are numbers, with JSON for the texts "0" and "7" only.
abbrev same_property : Option ℕ → ℕ → Bool
same_property none b = false
same_property (some a) b = a == b

-- 9 stands for the function that every object inherits under toString; a number is no prototype.
abbrev inherits : Option ℕ → String → Option ℕ
inherits proto k = ite (string_discrete k "toString") (some 9) none

abbrev number_payloads : Payloads ℕ
number_payloads = record {
  payloads_codec = λ k. none;
  codec_as_value = λ codec. 0;
  stringify = λ n. if n == 7 then "7" else "0";
  parse = λ text. ite (string_discrete text "7") 7 0;
  parse_object = λ text. ("x", 0) ∷ [];
  equal_values = same_property;
  truthy = truthy_number;
  prototypes = record { inherited = inherits; assign_proto = λ v object. object };
}

abbrev record_requests : List RecordRequest
record_requests =
    insert_properties (record {
      request_id = "r";
      entries = ("x", "0") ∷ ("toString", "7") ∷ [];
      source_endpoint_id = some "a";
    })
    ∷ update_properties (record {
      request_id = "s";
      entries = ("x", "7") ∷ [];
      source_endpoint_id = some "a";
      prev_value = some "{x:0}";
    })
    ∷ []

abbrev no_properties : JsMap String ℕ
no_properties = []

-- The insertion under toString is refused.
read-handle_all_example :
    read number_payloads.prototypes "toString"
      (Requests.handle_all number_payloads "b" record_requests no_properties)
    ≡ some 9
unfolding JsMap.get string_discrete read Requests.handle_all
read-handle_all_example =
    Agreement.read-handle_all number_payloads "b" record_requests no_properties (inherits none)
      "toString" (((refl, (refl, tt)), refl), (((refl, tt), refl), tt)) refl (λ k. refl)
