-- ===== src/Collections/Queue.antt =====
-- src/collections/HamokQueue.ts: what a peer does with the requests on a replicated queue that the
-- log gives it, in the order of the log, and how it reads the queue. `nullish` tells the values
-- that `==` does not tell from `undefined`. Encoding, joining and waiting are not modelled.
pub mod Fifo
pub mod Removing
pub mod Replication
pub mod Import
use hamok_ts.Prelude.{
  ℕ, suc, ◌-◌, Bool, true, false, not, ◌&&◌, Option, none, some, List, [], ◌∷◌, ◌++◌, map,
  if◌then◌else◌, ◌==◌, ltb, number_key, min, max, or_else,
}
use hamok_ts.JsMap
use hamok_ts.JsMap.{JsMap}

pub record HamokQueue (V : Type 0) : Type 0 where
  pub head : ℕ
  pub tail : ℕ
  pub closed : Bool
  pub base_map : JsMap ℕ V

pub data QueueOutput (V : Type 0) : Type 0 where
  emits_add emits_remove : V → QueueOutput V
  emits_empty emits_not_empty emits_close : QueueOutput V
  responds_clear responds_insert : QueueOutput V
  responds_remove : JsMap ℕ V → QueueOutput V

-- The requests with, for each, whether it comes from this peer. The keys of the entries that are
-- inserted are not read.
pub data QueueRequest (V : Type 0) : Type 0 where
  clear_entries : Bool → QueueRequest V
  insert_entries : Bool → List V → QueueRequest V
  remove_entries : Bool → List ℕ → QueueRequest V

abbrev pub empty_queue : {V : Type 0} → HamokQueue V
empty_queue = record { head = 0; tail = 0; closed = false; base_map = [] }

-- The lowest and the highest key of a snapshot.
unfoldable pub bounds : List ℕ → Option (ℕ × ℕ) → Option (ℕ × ℕ)
bounds [] found = found
bounds (k ∷ ks) none = bounds ks (some (k, k))
bounds (k ∷ ks) (some (low, high)) = bounds ks (some (min low k, max high k))

abbrev pub note_tail : ℕ → ℕ → ℕ
note_tail head tail = if head == tail then tail else suc tail

module _ {V : Type 0} where
  abbrev pub is_empty : HamokQueue V → Bool
  is_empty q = q.head == q.tail

  unfoldable pub size : HamokQueue V → ℕ
  size q = q.tail - q.head

  abbrev respond : Bool → QueueOutput V → List (QueueOutput V)
  respond true o = o ∷ []
  respond false o = []

  -- The listener of `ClearEntriesRequest`.
  unfoldable pub on_clear : Bool → HamokQueue V → HamokQueue V × List (QueueOutput V)
  on_clear local q =
      (record q { base_map = []; head = q.tail }, respond local responds_clear ++ emits_empty ∷ [])

  unfoldable pub insert_values : List V → HamokQueue V → HamokQueue V × List (QueueOutput V)
  insert_values [] q = (q, [])
  insert_values (v ∷ vs) q =
      let (q', outputs) =
        insert_values vs
          (record q { base_map = JsMap.set q.tail v q.base_map; tail = suc q.tail }) in
      (q', emits_add v ∷ outputs)

  -- The listener of `InsertEntriesRequest`.
  unfoldable pub on_insert : Bool → List V → HamokQueue V → HamokQueue V × List (QueueOutput V)
  unfolding insert_values
  on_insert local vs q =
      let (q', outputs) = insert_values vs q in
      (
        q',
        outputs
            ++ (if is_empty q then emits_not_empty ∷ [] else [])
            ++ respond local responds_insert,
      )

  -- `_pop`.
  unfoldable pub pop_head : HamokQueue V → Option V × HamokQueue V × List (QueueOutput V)
  pop_head q = if is_empty q then (none, q, []) else elim (JsMap.get q.head q.base_map) [
    | none ↦ (none, q, [])
    | some v ↦ (
      some v,
      record q { base_map = JsMap.delete q.head q.base_map; head = suc q.head },
      if suc q.head == q.tail then emits_empty ∷ [] else [],
    )
  ]

  -- `peek`, which throws on a closed queue.
  unfoldable pub peek : HamokQueue V → Option (Option V)
  peek q = if q.closed then none else some (JsMap.get q.head q.base_map)

  -- `close`; closing the connection is not modelled.
  unfoldable pub close : HamokQueue V → HamokQueue V × List (QueueOutput V)
  close q =
      if q.closed then (q, []) else (record q { closed = true; base_map = [] }, emits_close ∷ [])

  -- The items from the index `first` on, `n` of them; an index without an item is an error.
  unfoldable pub iterate_from : ℕ → ℕ → JsMap ℕ V → Option (List V)
  iterate_from first ℕ.zero m = some []
  iterate_from first (suc n) m =
      let rest = iterate_from (suc first) n m in
      elim (JsMap.get first m) [
        | none ↦ none
        | some v ↦ elim rest [ none ↦ none | some vs ↦ some (v ∷ vs) ]
      ]

  -- `[Symbol.iterator]`, run to its end; none where it throws.
  unfoldable pub iterate : HamokQueue V → Option (List V)
  unfolding iterate_from
  iterate q = if ltb q.tail q.head then none else iterate_from q.head (q.tail - q.head) q.base_map

  unfoldable pub set_entries : JsMap ℕ V → JsMap ℕ V → JsMap ℕ V
  set_entries [] m = m
  set_entries ((k, v) ∷ entries) m = set_entries entries (JsMap.set k v m)

  -- `_import`, from the entries that are decoded, without its events.
  unfoldable pub import_entries : JsMap ℕ V → HamokQueue V → HamokQueue V
  unfolding bounds set_entries
  import_entries entries q =
      let (low, high) = or_else (bounds (JsMap.keys entries) none) (0, 0) in
      record q { base_map = set_entries entries []; head = low; tail = note_tail low high }

module _ {V : Type 0} (nullish : V → Bool) where
  abbrev pub note_removed : ℕ → Option V → JsMap ℕ V → JsMap ℕ V
  note_removed k none removed = removed
  note_removed k (some v) removed = if nullish v then removed else JsMap.set k v removed

  unfoldable pub remove_keys :
      List ℕ → HamokQueue V → JsMap ℕ V → HamokQueue V × JsMap ℕ V × List (QueueOutput V)
  unfolding pop_head
  remove_keys [] q removed = (q, removed, [])
  remove_keys (k ∷ ks) q removed =
      let (v, q', outputs) = if k == q.head then pop_head q else (none, q, []) in
      let (q'', removed', more) = remove_keys ks q' (note_removed k v removed) in
      (q'', removed', outputs ++ more)

  -- The listener of `RemoveEntriesRequest`.
  unfoldable pub on_remove : Bool → List ℕ → HamokQueue V → HamokQueue V × List (QueueOutput V)
  unfolding remove_keys
  on_remove local ks q =
      let (q', removed, outputs) = remove_keys ks q [] in
      (
        q',
        outputs
            ++ respond local (responds_remove removed)
            ++ map emits_remove (JsMap.values removed),
      )

  unfoldable pub handle : QueueRequest V → HamokQueue V → HamokQueue V × List (QueueOutput V)
  unfolding on_clear on_insert on_remove
  handle (clear_entries local) q = on_clear local q
  handle (insert_entries local vs) q = on_insert local vs q
  handle (remove_entries local ks) q = on_remove local ks q

  -- The requests in the order in which the log commits them.
  unfoldable pub run_requests : List (QueueRequest V) → HamokQueue V → HamokQueue V
  unfolding handle
  run_requests [] q = q
  run_requests (r ∷ rs) q = run_requests rs (handle r q).0
