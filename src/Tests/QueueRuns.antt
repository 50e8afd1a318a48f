-- ===== src/Tests/QueueRuns.antt =====
-- Runs of the theorems on the collections.
use hamok_ts.Prelude.{
  ℕ, ◌≡◌, refl, Bool, true, false, some, List, [], ◌∷◌, first_some, number_key, ltb, ℕ_discrete,
}
use hamok_ts.JsMap
use hamok_ts.JsMap.{JsMap}
use hamok_ts.Collections.Queue.{
  QueueRequest, empty_queue, import_entries, iterate, remove_keys, run_requests, insert_entries,
  remove_entries,
}
use hamok_ts.Collections.Queue.Fifo.{Fifo, Holds}
use hamok_ts.Collections.Queue.Removing.{take_keys}
use hamok_ts.Collections.Queue.Replication.{apply_all, replicas_agree, remove_keys_takes}
use hamok_ts.Collections.Queue.Import.{numbered, import_entries-Holds, import_entries-single}
use hamok_ts.Collections.BaseMap.{insert_all, existing}
use hamok_ts.Collections.BaseMap.Batches.{get-insert_all}

-- The number 0 is no value that a condition takes as true; none is nullish.
abbrev truthy : ℕ → Bool
truthy n = ltb 0 n

abbrev nullish : ℕ → Bool
nullish n = false

abbrev no_items : Fifo ℕ
no_items = record { first = 0; items = [] }

empty_queue-Holds : Holds empty_queue no_items
unfolding JsMap.get
empty_queue-Holds = (refl, refl, λ i. refl)

abbrev some_requests : List (QueueRequest ℕ)
some_requests =
    insert_entries true (5 ∷ 6 ∷ [])
    ∷ remove_entries false (0 ∷ [])
    ∷ insert_entries false (7 ∷ [])
    ∷ []

replicas_agree_example :
    (iterate (run_requests nullish some_requests empty_queue)
      ≡ some (apply_all nullish some_requests no_items).items)
    × (iterate (run_requests nullish some_requests empty_queue)
        ≡ some (apply_all nullish some_requests no_items).items)
replicas_agree_example =
    replicas_agree nullish some_requests empty_queue empty_queue no_items empty_queue-Holds
      empty_queue-Holds

abbrev one_item : List ℕ
one_item = 5 ∷ []

abbrev two_items : List ℕ
two_items = 5 ∷ 6 ∷ []

abbrev three_items : List ℕ
three_items = 7 ∷ 8 ∷ 9 ∷ []

two_items-Holds :
    Holds
      (import_entries (numbered 3 two_items) empty_queue)
      (record { first = 3; items = two_items })
two_items-Holds = import_entries-Holds 3 5 6 [] empty_queue

remove_keys_takes_example :
    JsMap.values
      (remove_keys nullish (3 ∷ 4 ∷ []) (import_entries (numbered 3 two_items) empty_queue) []).1
    ≡ (take_keys nullish (3 ∷ 4 ∷ []) (record { first = 3; items = two_items })).0
remove_keys_takes_example =
    remove_keys_takes nullish (3 ∷ 4 ∷ []) (import_entries (numbered 3 two_items) empty_queue)
      (record { first = 3; items = two_items }) two_items-Holds

import_entries-Holds_example :
    Holds
      (import_entries (numbered 4 three_items) empty_queue)
      (record { first = 4; items = three_items })
import_entries-Holds_example = import_entries-Holds 4 7 8 (9 ∷ []) empty_queue

import_entries-single_example :
    (iterate (import_entries (numbered 3 one_item) empty_queue) ≡ some [])
    × (JsMap.get 3 (import_entries (numbered 3 one_item) empty_queue).base_map ≡ some 5)
import_entries-single_example = import_entries-single 3 5 empty_queue

abbrev some_map : JsMap ℕ ℕ
some_map = (1, 10) ∷ (2, 0) ∷ []

abbrev some_entries : JsMap ℕ ℕ
some_entries = (1, 11) ∷ (2, 12) ∷ []

some_entries-Unique : JsMap.Unique some_entries
unfolding JsMap.get ℕ_discrete
some_entries-Unique = (refl, (refl, tt))

get-insert_all_example :
    JsMap.get 2 (insert_all truthy some_entries some_map []).0
    ≡ first_some
        (existing truthy 2 some_map)
        (first_some (JsMap.get 2 some_entries) (JsMap.get 2 some_map))
get-insert_all_example = get-insert_all truthy some_entries some_map [] 2 some_entries-Unique
