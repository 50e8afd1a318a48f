-- ===== src/Collections/Queue/Fifo.antt =====
-- The replicated queue as a list with the key of its first item, and what it is to hold one.
use hamok_ts.Prelude.{
  ◌-◌, false, ltb, ◌≤◌, ℕ, suc, ◌+◌, ◌<◌, ◌≡◌, refl, ite, Option, none, some, List, [], ◌∷◌, ◌++◌,
  if◌then◌else◌, ◌==◌, arith, length, length-append, append_nil, append_one, ◌≤◌, ◌-◌, false, ltb,
  number_key, ℕ_discrete,
}
use hamok_ts.JsMap
use hamok_ts.JsMap.Laws.{get-set}
use hamok_ts.JsMap.{JsMap}
use hamok_ts.Collections.Queue.{insert_values, iterate, iterate_from, HamokQueue}

pub record Fifo (V : Type 0) : Type 0 where
  pub first : ℕ
  pub items : List V

module _ {V : Type 0} where
  -- The item with the key `i`.
  abbrev pub slot : ℕ → List V → ℕ → Option V
  slot first [] i = none
  slot first (x ∷ xs) i = if i == first then some x else slot (suc first) xs i

  pub slot-below : (first : ℕ) (xs : List V) (i : ℕ) → i < first → slot first xs i ≡ none
  slot-below first [] i h = refl
  slot-below first (x ∷ xs) i h = ground (arith, slot-below (suc first) xs i)

  slot-append :
      (first : ℕ) (xs : List V) (v : V) (i : ℕ)
      → slot first (xs ++ v ∷ []) i
        ≡ ite (ℕ_discrete (first + length xs) i) (some v) (slot first xs i)
  slot-append first [] v i = ground arith
  slot-append first (x ∷ xs) v i = ground (arith, slot-append (suc first) xs v i)

  -- The queue has the items of the list under the keys from `first` on, and nothing else.
  abbrev pub Holds : HamokQueue V → Fifo V → Type 0
  Holds q a =
      (q.head ≡ a.first)
      × (q.tail ≡ a.first + length a.items)
      × ((i : ℕ) → JsMap.get i q.base_map ≡ slot a.first a.items i)

  iterate_from-slots :
      (first : ℕ) (xs : List V) (m : JsMap ℕ V)
      → ((i : ℕ) → first ≤ i → JsMap.get i m ≡ slot first xs i)
      → iterate_from first (length xs) m ≡ some xs
  unfolding iterate_from
  iterate_from-slots first [] m h = refl
  iterate_from-slots first (x ∷ xs) m h =
      let here : JsMap.get first m ≡ some x = ground (arith, h first) in
      let rest = iterate_from-slots (suc first) xs m (λ i le. ground (arith, h i)) in
      rw (here, rest, iterate_from) refl

  -- Iterating over a queue never throws, and gives its items in order.
  pub iterate-Holds : (q : HamokQueue V) (a : Fifo V) → Holds q a → iterate q ≡ some a.items
  unfolding iterate
  iterate-Holds q a h =
      let ordered : ltb q.tail q.head ≡ false = ground (arith, h) in
      let count : q.tail - q.head ≡ length a.items = omega (arith, h) in
      rw (ordered, count, h.0) (iterate_from-slots a.first a.items q.base_map (λ i le. h.2 i))

  -- The items that are inserted come after the ones that are there.
  pub insert_values-Holds :
      (vs : List V) (q : HamokQueue V) (a : Fifo V)
      → Holds q a
      → Holds (insert_values vs q).0 (record a { items = a.items ++ vs })
  unfolding insert_values
  insert_values-Holds [] q a h = rw (append_nil a.items) h
  insert_values-Holds (v ∷ vs) q a h =
      let q' : HamokQueue V = record q {
        base_map = JsMap.set q.tail v q.base_map;
        tail = suc q.tail;
      } in
      let step : Holds q' (record a { items = a.items ++ v ∷ [] }) = (
        h.0,
        omega (arith, h.1, length-append a.items (v ∷ [])),
        λ i. rw (slot-append a.first a.items v i, get-set q.tail i v q.base_map, h.1, h.2 i) refl,
      ) in
      let rest = insert_values-Holds vs q' (record a { items = a.items ++ v ∷ [] }) step in
      rw (← append_one a.items v vs) rest
