-- ===== src/Collections/Queue/Import.antt =====
-- What a queue holds after it took over the entries of a snapshot.
use hamok_ts.Prelude.{
  ℕ, suc, ◌+◌, ◌≤◌, ◌≡◌, refl, Option, none, some, List, [], ◌∷◌, length, ap, ◌∙◌, ltb, false, ◌-◌,
  or_else, ◌==◌, true, arith, number_key, min, max,
}
use hamok_ts.JsMap
use hamok_ts.JsMap.{JsMap}
use hamok_ts.JsMap.Laws.{get-set}
use hamok_ts.Collections.Queue.{
  HamokQueue, import_entries, set_entries, bounds, note_tail, iterate_from, iterate,
}
use hamok_ts.Collections.Queue.Fifo.{Holds, slot, slot-below}

abbrev bounds_or_zero : Option (ℕ × ℕ) → ℕ × ℕ
bounds_or_zero o = or_else o (0, 0)

module _ {V : Type 0} where
  same_value : (o : Option V) → (elim o [ none ↦ none | some x ↦ some x ]) ≡ o
  same_value none = refl
  same_value (some x) = refl

  -- The entries of a snapshot of a queue whose first item has the key `first`.
  abbrev pub numbered : ℕ → List V → JsMap ℕ V
  numbered first [] = []
  numbered first (x ∷ xs) = (first, x) ∷ numbered (suc first) xs

  get-set_entries :
      (first : ℕ) (xs : List V) (m : JsMap ℕ V) (i : ℕ)
      → JsMap.get i (set_entries (numbered first xs) m)
        ≡ (elim (slot first xs i) [ none ↦ JsMap.get i m | some x ↦ some x ])
  unfolding set_entries
  get-set_entries first [] m i = refl
  get-set_entries first (x ∷ xs) m i = ground (
    arith,
    get-set_entries (suc first) xs (JsMap.set first x m) i,
    get-set first i x m,
    slot-below (suc first) xs i,
  )

  bounds-numbered :
      (first : ℕ) (xs : List V) (low high : ℕ)
      → low ≤ first
      → suc high ≡ first
      → bounds (JsMap.keys (numbered first xs)) (some (low, high)) ≡ some (low, high + length xs)
  unfolding bounds
  bounds-numbered first [] low high l h = ap (λ n. some (low, n)) (omega arith)
  bounds-numbered first (x ∷ xs) low high l h =
      let lowest : min low first ≡ low = omega (arith, l) in
      let highest : max high first ≡ first = omega (arith, h) in
      let total : high + suc (length xs) ≡ first + length xs = omega (arith, h) in
      rw (lowest, highest, total, bounds)
        (bounds-numbered (suc first) xs low first (omega (arith, l)) refl)

  -- A snapshot of two items or more is taken over as it is, whatever the queue held.
  pub import_entries-Holds :
      (first : ℕ) (x y : V) (xs : List V) (q : HamokQueue V)
      → Holds
          (import_entries (numbered first (x ∷ y ∷ xs)) q)
          (record { first = first; items = x ∷ y ∷ xs })
  unfolding import_entries bounds JsMap.get
  import_entries-Holds first x y xs q =
      let found : bounds (JsMap.keys (numbered first (x ∷ y ∷ xs))) none
          ≡ some (first, first + suc (length xs)) =
        bounds-numbered (suc first) (y ∷ xs) first first (omega arith) refl in
      let count : note_tail first (first + suc (length xs)) ≡ first + suc (suc (length xs)) =
        ground arith in
      (
        ap (λ o. (bounds_or_zero o).0) found,
        ap (λ o. note_tail (bounds_or_zero o).0 (bounds_or_zero o).1) found ∙ count,
        λ i. get-set_entries first (x ∷ y ∷ xs) [] i ∙ same_value (slot first (x ∷ y ∷ xs) i),
      )

  -- A snapshot of a single item leaves a queue that is empty, though the item is in its map.
  pub import_entries-single :
      (first : ℕ) (x : V) (q : HamokQueue V)
      → (iterate (import_entries (numbered first (x ∷ [])) q) ≡ some [])
        × (JsMap.get first (import_entries (numbered first (x ∷ [])) q).base_map ≡ some x)
  unfolding import_entries set_entries bounds iterate iterate_from JsMap.get JsMap.set
  import_entries-single first x q =
      let same : (first == first) ≡ true = ground arith in
      let ordered : ltb first first ≡ false = ground arith in
      let none_left : first - first ≡ 0 = omega arith in
      (rw (same, ordered, none_left, iterate) refl, ground arith)
