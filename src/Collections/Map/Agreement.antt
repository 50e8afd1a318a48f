-- ===== src/Collections/Map/Agreement.antt =====
-- What a request does to every key, and that replicas agree.
use hamok_ts.Prelude.{
  Option-cases, first_some, String, ◌≡◌, refl, sym, ◌∙◌, inl, inr, ite, Bool, true, false, Option,
  none, some, List, [], ◌∷◌, arith, if◌then◌else◌, is_some, Key, number_key, string_key, All,
}
use hamok_ts.JsMap
use hamok_ts.JsMap.{JsMap}
use hamok_ts.JsMap.Laws.{get-set}
use hamok_ts.Collections.BaseMap.{existing}
use hamok_ts.Collections.BaseMap.Batches.{get-set_all, get-insert_all, get-remove_all}
use hamok_ts.Messages.Types.Removals.{RemoveEntriesRequest}
use hamok_ts.Messages.Types.Insertions.{UpdateEntriesRequest}
use hamok_ts.Collections.Map.{
  handle_all, matches, on_remove, on_update, on_clear, on_delete, on_get, on_insert, remove_now,
  remove_if, update_if, update_one, finish_update, on_remove, on_insert, on_get, remove_entries,
  on_delete, get_entries, on_clear, update_entries, delete_entries, handle, insert_entries,
  clear_entries, matches, MapRequest,
}

module _ {V : Type 0} (truthy : V → Bool) where
  -- What counts as a value that is there.
  abbrev pub visible : Option V → Option V
  visible none = none
  visible (some v) = if truthy v then some v else none

  -- The removal of a key.
  abbrev pub removed : Option V → Option V
  removed before = if is_some (visible before) then none else before

module _ {K V : Type 0} ⦃key : Key K⦄ (truthy : V → Bool) (equal_values : V → V → Bool) where
  abbrev pub after_remove : Option V → List K → (K → Option V) → K → Option V
  after_remove none keys f j = if JsMap.member j keys then removed truthy (f j) else f j
  after_remove (some expected) (k ∷ []) f j =
      if matches equal_values (visible truthy (f k)) expected
      then (ite (key.eq? k j) (removed truthy (f j)) (f j))
      else f j
  after_remove (some expected) [] f j = f j
  after_remove (some expected) (k ∷ i ∷ keys) f j = f j

  abbrev pub after_update : Option V → JsMap K V → (K → Option V) → K → Option V
  after_update none entries f j = first_some (JsMap.get j entries) (f j)
  after_update (some expected) ((k, v) ∷ []) f j =
      if matches equal_values (visible truthy (f k)) expected
      then ite (key.eq? k j) (some v) (f j)
      else f j
  after_update (some expected) [] f j = f j
  after_update (some expected) (e ∷ d ∷ entries) f j = f j

  -- The map as a function: what each request makes of it.
  abbrev pub next : MapRequest K V → (K → Option V) → K → Option V
  next (clear_entries r) f j = none
  next (delete_entries r) f j = if JsMap.member j r.keys then removed truthy (f j) else f j
  next (get_entries r) f j = f j
  next (insert_entries r) f j =
      first_some (visible truthy (f j)) (first_some (JsMap.get j r.entries) (f j))
  next (remove_entries r) f j = after_remove r.prev_value r.keys f j
  next (update_entries r) f j = after_update r.prev_value r.entries f j

  -- No key stands twice in the entries of a request.
  abbrev pub IsSound : MapRequest K V → Type 0
  IsSound (insert_entries r) = JsMap.Unique r.entries
  IsSound (update_entries r) = JsMap.Unique r.entries
  IsSound (clear_entries r) = Unit {0}
  IsSound (delete_entries r) = Unit {0}
  IsSound (get_entries r) = Unit {0}
  IsSound (remove_entries r) = Unit {0}

  existing-visible : (k : K) (m : JsMap K V) → existing truthy k m ≡ visible truthy (JsMap.get k m)
  unfolding existing
  existing-visible k m = elim (Option-cases (JsMap.get k m)) [
    | inl e ↦ rw (e) (ground arith)
    | inr (v, e) ↦ rw (e) (ground arith)
  ]

  get-remove_now :
      (local : String) (r : RemoveEntriesRequest K V) (m : JsMap K V) (j : K)
      → JsMap.get j (remove_now truthy local r m).0
        ≡ (if JsMap.member j r.keys then removed truthy (JsMap.get j m) else JsMap.get j m)
  unfolding remove_now
  get-remove_now local r m j =
      get-remove_all truthy r.keys m j ∙ ground (arith, existing-visible j m)

  get-remove :
      (prev : Option V) (keys : List K) (local : String) (r : RemoveEntriesRequest K V)
      (m : JsMap K V) (j : K)
      → r.keys ≡ keys
      → JsMap.get j (remove_if truthy equal_values prev keys local r m).0
        ≡ after_remove prev keys (λ k. JsMap.get k m) j
  unfolding remove_if JsMap.member
  get-remove none keys local r m j h = rw (sym h) (get-remove_now local r m j)
  get-remove (some expected) [] local r m j h = refl
  get-remove (some expected) (k ∷ i ∷ keys) local r m j h = refl
  get-remove (some expected) (k ∷ []) local r m j h =
      let member_one : JsMap.member j r.keys ≡ ite (key.eq? k j) true false = rw (h) refl in
      ground (arith, existing-visible k m, get-remove_now local r m j)

  get-update :
      (prev : Option V) (entries : JsMap K V) (local : String) (r : UpdateEntriesRequest K V)
      (m : JsMap K V) (j : K)
      → JsMap.Unique r.entries
      → r.entries ≡ entries
      → JsMap.get j (update_if truthy equal_values prev entries local r m).0
        ≡ after_update prev entries (λ k. JsMap.get k m) j
  unfolding update_if update_one finish_update
  get-update none entries local r m j u h = get-set_all entries m j (rw (sym h) u)
  get-update (some expected) [] local r m j u h = refl
  get-update (some expected) (e ∷ d ∷ entries) local r m j u h = refl
  get-update (some expected) ((k, v) ∷ []) local r m j u h =
      ground (arith, existing-visible k m, get-set k j v m)

  get-handle :
      (local : String) (r : MapRequest K V) (m : JsMap K V) (j : K)
      → IsSound r
      → JsMap.get j (handle truthy equal_values local r m).0 ≡ next r (λ k. JsMap.get k m) j
  unfolding handle on_clear on_delete on_get on_insert on_remove on_update JsMap.get
  get-handle local (clear_entries r) m j s = refl
  get-handle local (delete_entries r) m j s =
      get-remove_all truthy r.keys m j ∙ ground (arith, existing-visible j m)
  get-handle local (get_entries r) m j s = refl
  get-handle local (insert_entries r) m j s =
      get-insert_all truthy r.entries m [] j s ∙ ground (arith, existing-visible j m)
  get-handle local (remove_entries r) m j s = get-remove r.prev_value r.keys local r m j refl
  get-handle local (update_entries r) m j s = get-update r.prev_value r.entries local r m j s refl

  after_remove-same :
      (prev : Option V) (keys : List K) (f g : K → Option V) (j : K)
      → ((k : K) → f k ≡ g k)
      → after_remove prev keys f j ≡ after_remove prev keys g j
  after_remove-same none keys f g j h = rw (h j) refl
  after_remove-same (some expected) [] f g j h = h j
  after_remove-same (some expected) (k ∷ i ∷ keys) f g j h = h j
  after_remove-same (some expected) (k ∷ []) f g j h = rw (h j, h k) refl

  after_update-same :
      (prev : Option V) (entries : JsMap K V) (f g : K → Option V) (j : K)
      → ((k : K) → f k ≡ g k)
      → after_update prev entries f j ≡ after_update prev entries g j
  after_update-same none entries f g j h = rw (h j) refl
  after_update-same (some expected) [] f g j h = h j
  after_update-same (some expected) (e ∷ d ∷ entries) f g j h = h j
  after_update-same (some expected) ((k, v) ∷ []) f g j h = rw (h j, h k) refl

  next-same :
      (r : MapRequest K V) (f g : K → Option V) (j : K)
      → ((k : K) → f k ≡ g k)
      → next r f j ≡ next r g j
  next-same (clear_entries r) f g j h = refl
  next-same (delete_entries r) f g j h = rw (h j) refl
  next-same (get_entries r) f g j h = h j
  next-same (insert_entries r) f g j h = rw (h j) refl
  next-same (remove_entries r) f g j h = after_remove-same r.prev_value r.keys f g j h
  next-same (update_entries r) f g j h = after_update-same r.prev_value r.entries f g j h

  -- What the requests make of a map, as a function.
  abbrev pub next_all : List (MapRequest K V) → (K → Option V) → K → Option V
  next_all [] f j = f j
  next_all (r ∷ rs) f j = next_all rs (next r f) j

  -- Requests whose entries have no key twice make of a replicated map what the specification makes
  -- of it as a function of the keys, whatever the local peer and the order in which the map holds
  -- its entries: clearing, deletion and removal of values that count as true, insertion only where
  -- no such value stands, update, and conditional removal and update only where the value equals
  -- the expected one.
  pub get-handle_all :
      (local : String) (rs : List (MapRequest K V)) (m : JsMap K V) (f : K → Option V) (j : K)
      → All IsSound rs
      → ((k : K) → JsMap.get k m ≡ f k)
      → JsMap.get j (handle_all truthy equal_values local rs m) ≡ next_all rs f j
  unfolding handle_all
  get-handle_all local [] m f j s h = h j
  get-handle_all local (r ∷ rs) m f j s h =
      get-handle_all local rs (handle truthy equal_values local r m).0 (next r f) j s.1
        (λ k. get-handle local r m k s.0 ∙ next-same r (λ i. JsMap.get i m) f k h)

  get-on_update :
      (local : String) (r : UpdateEntriesRequest K V) (m : JsMap K V) (j : K)
      → JsMap.Unique r.entries
      → JsMap.get j (on_update truthy equal_values local r m).0
        ≡ after_update r.prev_value r.entries (λ k. JsMap.get k m) j
  unfolding on_update
  get-on_update local r m j u = get-update r.prev_value r.entries local r m j u refl

  -- Of two conditional updates of a key that expect the same value, which the map holds and which
  -- counts as true, the second leaves the value of the first, if that does not equal the expected
  -- one.
  pub second_update_fails :
      (local : String) (r s : UpdateEntriesRequest K V) (m : JsMap K V) (k : K) (old v w : V)
      → r.entries ≡ (k, v) ∷ []
      → r.prev_value ≡ some old
      → s.entries ≡ (k, w) ∷ []
      → s.prev_value ≡ some old
      → JsMap.get k m ≡ some old
      → truthy old ≡ true
      → equal_values old old ≡ true
      → equal_values v old ≡ false
      → JsMap.get k
          (on_update truthy equal_values local s (on_update truthy equal_values local r m).0).0
        ≡ some v
  unfolding JsMap.get
  second_update_fails local r s m k old v w re rp se sp held good same other =
      let m1 = (on_update truthy equal_values local r m).0 in
      let first : JsMap.get k m1 ≡ some v =
        get-on_update local r m k (rw (re) (refl, tt)) ∙ rw (re, rp) (ground arith) in
      get-on_update local s m1 k (rw (se) (refl, tt)) ∙ rw (se, sp) (ground (arith, first))
