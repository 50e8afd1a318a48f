-- ===== src/Collections/Queue/Removing.antt =====
-- What a request to remove keys does to the items of a queue: a key counts only while it is the
-- key of the first item.
use hamok_ts.Prelude.{
  ℕ, suc, ◌≤◌, ◌≡◌, refl, Bool, true, false, Option, none, some, List, [], ◌∷◌, ◌++◌, if◌then◌else◌,
  ◌==◌, arith, number_key, ap, ◌⊎◌, ◌∙◌, Option-cases, append_nil, Bool-cases, inl, inr,
}
use hamok_ts.JsMap
use hamok_ts.JsMap.{JsMap}
use hamok_ts.JsMap.Laws.{get-set, get-delete}
use hamok_ts.Collections.Queue.{
  HamokQueue, pop_head, remove_keys, note_removed, is_empty, QueueOutput,
}
use hamok_ts.Collections.Queue.Fifo.{Fifo, Holds, slot-below}

values-set_fresh :
    {V : Type 0}
    → (k : ℕ) (v : V) (m : JsMap ℕ V) (vs : List V) → JsMap.get k m ≡ none
    → JsMap.values (JsMap.set k v m) ++ vs ≡ JsMap.values m ++ v ∷ vs
unfolding JsMap.get JsMap.set
values-set_fresh k v [] vs h = refl
values-set_fresh k v ((j, w) ∷ m) vs h = ground (arith, values-set_fresh k v m vs)

module _ {V : Type 0} where
  -- The list without its first item, if the key is the first item's.
  abbrev pub take_key : ℕ → ℕ → List V → Option V × Fifo V
  take_key k first [] = (none, record { first = first; items = [] })
  take_key k first (x ∷ xs) =
      if k == first
      then (some x, record { first = suc first; items = xs })
      else (none, record { first = first; items = x ∷ xs })

  pop_head-empty :
      (q : HamokQueue V) (first : ℕ)
      → Holds q (record { first = first; items = [] })
      → pop_head q ≡ (none, q, [])
  unfolding pop_head
  pop_head-empty q first h = let same : is_empty q ≡ true = ground (arith, h) in rw (same) refl

  pop_head-value :
      (q : HamokQueue V) (first : ℕ) (x : V) (xs : List V)
      → Holds q (record { first = first; items = x ∷ xs })
      → (pop_head q).0 ≡ some x
  unfolding pop_head
  pop_head-value q first x xs h =
      let differ : is_empty q ≡ false = ground (arith, h.0, h.1) in
      let here : JsMap.get q.head q.base_map ≡ some x = ground (arith, h.0, h.2 q.head) in
      rw (differ, here, pop_head) refl

  pop_head-Holds :
      (q : HamokQueue V) (first : ℕ) (x : V) (xs : List V)
      → Holds q (record { first = first; items = x ∷ xs })
      → Holds (pop_head q).1 (record { first = suc first; items = xs })
  unfolding pop_head
  pop_head-Holds q first x xs h =
      let differ : is_empty q ≡ false = ground (arith, h.0, h.1) in
      let here : JsMap.get q.head q.base_map ≡ some x = ground (arith, h.0, h.2 q.head) in
      rw (differ, here, pop_head)
        (
          ap suc h.0,
          omega (arith, h.1),
          λ i.
              rw (get-delete q.head i q.base_map, h.2 i, h.0)
                (ground (arith, slot-below (suc first) xs i)),
        )

  pop_head-cases :
      (q : HamokQueue V)
      → (pop_head q ≡ (none, q, []))
        ⊎ ((v : V) × ((pop_head q).0 ≡ some v) × ((pop_head q).1.head ≡ suc q.head))
  unfolding pop_head
  pop_head-cases q = elim (Bool-cases (is_empty q)) [
    | inl void ↦ rw (void) (inl refl)
    | inr items ↦ elim (Option-cases (JsMap.get q.head q.base_map)) [
      | inl gap ↦ rw (items, gap) (inl refl)
      | inr (v, there) ↦ rw (items, there) (inr (v, refl, refl))
    ]
  ]

  -- What a key takes from the queue.
  abbrev popped : ℕ → HamokQueue V → Option V × HamokQueue V × List (QueueOutput V)
  popped k q = if k == q.head then pop_head q else (none, q, [])

  popped-Holds :
      (k : ℕ) (q : HamokQueue V) (first : ℕ) (xs : List V)
      → Holds q (record { first = first; items = xs })
      → ((popped k q).0 ≡ (take_key k first xs).0) × Holds (popped k q).1 (take_key k first xs).1
  popped-Holds k q first [] h = elim (Bool-cases (k == q.head)) [
    | inl now ↦ rw (now, pop_head-empty q first h) (refl, h)
    | inr other ↦ rw (other) (refl, h)
  ]
  popped-Holds k q first (x ∷ xs) h = elim (Bool-cases (k == q.head)) [
    | inl now ↦
        let same : (k == first) ≡ true = rw (← h.0) now in
        rw (now, same) (pop_head-value q first x xs h, pop_head-Holds q first x xs h)
    | inr other ↦
        let differ : (k == first) ≡ false = rw (← h.0) other in rw (other, differ) (refl, h)
  ]

module _ {V : Type 0} (nullish : V → Bool) where
  abbrev note_taken : Option V → List V → List V
  note_taken none vs = vs
  note_taken (some v) vs = if nullish v then vs else v ∷ vs

  -- The items that the keys take one after another, less the nullish ones, and what stays.
  abbrev pub take_keys : List ℕ → Fifo V → List V × Fifo V
  take_keys [] a = ([], a)
  take_keys (k ∷ ks) a =
      let (v, a') = take_key k a.first a.items in
      let (vs, a'') = take_keys ks a' in (note_taken v vs, a'')

  -- No key from `head` on is noted as removed.
  abbrev Fresh : ℕ → JsMap ℕ V → Type 0
  Fresh head removed = (j : ℕ) → head ≤ j → JsMap.get j removed ≡ none

  values-note_removed :
      (k : ℕ) (v : Option V) (removed : JsMap ℕ V) (vs : List V)
      → JsMap.get k removed ≡ none
      → JsMap.values (note_removed nullish k v removed) ++ vs
        ≡ JsMap.values removed ++ note_taken v vs
  values-note_removed k none removed vs h = refl
  values-note_removed k (some v) removed vs h = elim (Bool-cases (nullish v)) [
    | inl lost ↦ rw (lost) refl
    | inr kept ↦ rw (kept) (values-set_fresh k v removed vs h)
  ]

  values-popped :
      (k : ℕ) (q : HamokQueue V) (removed : JsMap ℕ V) (vs : List V)
      → Fresh q.head removed
      → JsMap.values (note_removed nullish k (popped k q).0 removed) ++ vs
        ≡ JsMap.values removed ++ note_taken (popped k q).0 vs
  values-popped k q removed vs f = elim (Bool-cases (k == q.head)) [
    | inl now ↦ values-note_removed k (popped k q).0 removed vs (f k (ground arith))
    | inr other ↦ let same : popped k q ≡ (none, q, []) = rw (other) refl in rw (same) refl
  ]

  later_key :
      (k : ℕ) (v : V) (removed : JsMap ℕ V) {head : ℕ}
      → Fresh head removed
      → (j : ℕ) → k ≡ head
      → suc head ≤ j
      → JsMap.get j (note_removed nullish k (some v) removed) ≡ none
  later_key k v removed {head} h j now le = elim (Bool-cases (nullish v)) [
    | inl lost ↦ rw (lost) (h j (omega arith))
    | inr kept ↦ rw (kept, get-set k j v removed) (ground (arith, h j))
  ]

  popped-Fresh :
      (k : ℕ) (q : HamokQueue V) (removed : JsMap ℕ V)
      → Fresh q.head removed
      → Fresh (popped k q).1.head (note_removed nullish k (popped k q).0 removed)
  unfolding pop_head
  popped-Fresh k q removed h j le = elim (Bool-cases (k == q.head)) [
    | inr other ↦
        let same : popped k q ≡ (none, q, []) = rw (other) refl in
        rw (same) (h j (rw (← ap (λ p. p.1.head) same) le))
    | inl now ↦
        let same : popped k q ≡ pop_head q = rw (now) refl in
        elim (pop_head-cases q) [
          | inl nothing ↦
              let stays : popped k q ≡ (none, q, []) = same ∙ nothing in
              rw (stays) (h j (rw (← ap (λ p. p.1.head) stays) le))
          | inr (v, there, next) ↦
              let later : suc q.head ≤ j = rw (← next) (rw (← ap (λ p. p.1.head) same) le) in
              let taken : (popped k q).0 ≡ some v = ap (λ p. p.0) same ∙ there in
              rw (taken) (later_key k v removed h j (ground arith) later)
        ]
  ]

  pub remove_keys-Holds :
      (ks : List ℕ) (q : HamokQueue V) (a : Fifo V) (removed : JsMap ℕ V)
      → Holds q a
      → Fresh q.head removed
      → Holds (remove_keys nullish ks q removed).0 (take_keys ks a).1
        × (JsMap.values (remove_keys nullish ks q removed).1
            ≡ JsMap.values removed ++ (take_keys ks a).0)
  unfolding remove_keys
  remove_keys-Holds [] q a removed h f = (h, rw (append_nil (JsMap.values removed)) refl)
  remove_keys-Holds (k ∷ ks) q a removed h f =
      let one = popped-Holds k q a.first a.items h in
      let removed' = note_removed nullish k (popped k q).0 removed in
      let rest =
        remove_keys-Holds ks (popped k q).1 (take_key k a.first a.items).1 removed' one.1
          (popped-Fresh k q removed f) in
      let taken = values-popped k q removed (take_keys ks (take_key k a.first a.items).1).0 f in
      (
        rest.0,
        rest.1
            ∙ taken
            ∙ ap
                (λ o.
                  JsMap.values removed
                  ++ note_taken o (take_keys ks (take_key k a.first a.items).1).0)
                one.0,
      )
