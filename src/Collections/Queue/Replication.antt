-- ===== src/Collections/Queue/Replication.antt =====
-- The replicated queue under any sequence of requests: it implements a list that is filled at its
-- end and emptied at its front, so that the peers that handle the same requests agree.
use hamok_ts.Prelude.{ℕ, ◌+◌, ◌≡◌, refl, Bool, some, List, [], ◌∷◌, ◌++◌, length, arith}
use hamok_ts.JsMap
use hamok_ts.Collections.Queue.{
  HamokQueue, QueueRequest, clear_entries, insert_entries, remove_entries, handle, run_requests,
  iterate, remove_keys, on_remove, on_clear, on_insert,
}
use hamok_ts.Collections.Queue.Fifo.{Fifo, Holds, iterate-Holds, insert_values-Holds}
use hamok_ts.Collections.Queue.Removing.{take_keys, remove_keys-Holds}

module _ {V : Type 0} (nullish : V → Bool) where
  -- What a request does to the list.
  abbrev pub apply : QueueRequest V → Fifo V → Fifo V
  apply (clear_entries local) a = record { first = a.first + length a.items; items = [] }
  apply (insert_entries local vs) a = record a { items = a.items ++ vs }
  apply (remove_entries local ks) a = (take_keys nullish ks a).1

  abbrev pub apply_all : List (QueueRequest V) → Fifo V → Fifo V
  apply_all [] a = a
  apply_all (r ∷ rs) a = apply_all rs (apply r a)

  handle-Holds :
      (r : QueueRequest V) (q : HamokQueue V) (a : Fifo V)
      → Holds q a
      → Holds (handle nullish r q).0 (apply r a)
  unfolding handle on_remove on_clear on_insert JsMap.get
  handle-Holds (clear_entries local) q a h = (h.1, omega (arith, h.1), λ i. refl)
  handle-Holds (insert_entries local vs) q a h = insert_values-Holds vs q a h
  handle-Holds (remove_entries local ks) q a h =
      (remove_keys-Holds nullish ks q a [] h (λ j le. refl)).0

  -- Whatever requests a queue handles, it holds the list that they make.
  pub run_requests-Holds :
      (rs : List (QueueRequest V)) (q : HamokQueue V) (a : Fifo V)
      → Holds q a
      → Holds (run_requests nullish rs q) (apply_all rs a)
  unfolding run_requests
  run_requests-Holds [] q a h = h
  run_requests-Holds (r ∷ rs) q a h =
      run_requests-Holds rs (handle nullish r q).0 (apply r a) (handle-Holds r q a h)

  -- Two peers whose queues hold the same list, each with entries of its own order in memory, read
  -- the same items after the same requests, and reading does not throw.
  pub replicas_agree :
      (rs : List (QueueRequest V)) (p q : HamokQueue V) (a : Fifo V)
      → Holds p a
      → Holds q a
      → (iterate (run_requests nullish rs p) ≡ some (apply_all rs a).items)
        × (iterate (run_requests nullish rs q) ≡ some (apply_all rs a).items)
  replicas_agree rs p q a hp hq = (
    iterate-Holds (run_requests nullish rs p) (apply_all rs a) (run_requests-Holds rs p a hp),
    iterate-Holds (run_requests nullish rs q) (apply_all rs a) (run_requests-Holds rs q a hq),
  )

  -- A request to remove keys of a queue that holds a list collects, for its answer and its events,
  -- the items that the keys take from the front of the list, in that order, less the nullish ones.
  pub remove_keys_takes :
      (ks : List ℕ) (q : HamokQueue V) (a : Fifo V)
      → Holds q a
      → JsMap.values (remove_keys nullish ks q []).1 ≡ (take_keys nullish ks a).0
  unfolding JsMap.get
  remove_keys_takes ks q a h = (remove_keys-Holds nullish ks q a [] h (λ j le. refl)).1
