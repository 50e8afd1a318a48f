-- ===== src/Raft/Follower/Storing.antt =====
-- What a follower of src/raft/RaftFollowerState.ts stores of a request.
use hamok_ts.Prelude.{
  ℤ, pos, negsuc, ℕ, zero, suc, ◌+◌, ◌≤◌, ◌<◌, ◌≡◌, ◌≢◌, refl, ◌∙◌, max, Bool, true, false, some,
  List, [], ◌∷◌, ◌⊎◌, inl, inr, Bool-cases, Option-cases, arith, ltb, ◌==◌, length, get_elem?,
  number_key, ◌&&◌,
}
use hamok_ts.JsMap
use hamok_ts.JsMap.Laws.{get-set, get-set_self}
use hamok_ts.Message.{HamokMessage}
use hamok_ts.Logs.{RaftLogs, LogEntry, compare_and_override, compare_and_add, new_entry}
use hamok_ts.Logs.Invariant.{
  IsValid, compare_and_override-IsValid, compare_and_add-IsValid, override_below-IsValid,
}
use hamok_ts.Raft.Follower.{store_entries, store_below, store_from}

module _ {E : Type 0} where
  -- The entry at the index is of the term, and it is the message's or one that stood there before.
  abbrev pub Stored : ℕ → ℕ → HamokMessage E → RaftLogs E → RaftLogs E → Type 0
  Stored term index m old new =
      (d : LogEntry E) × (JsMap.get index new.entries ≡ some d)
      × (d.term ≡ term)
      × ((d.entry ≡ m) ⊎ (JsMap.get index old.entries ≡ some d))

  override_stores :
      (now index term : ℕ) (m : HamokMessage E) (s : RaftLogs E)
      → index < s.next_index
      → Stored term index m s (compare_and_override now index term m s).0
  unfolding compare_and_override
  override_stores now index term m s h = elim (Option-cases (JsMap.get index s.entries)) [
    | inl gap ↦ (
      new_entry now index term m,
      ground (arith, get-set_self index (new_entry now index term m) s.entries),
      refl,
      inl refl,
    )
    | inr (d, e) ↦ elim (Bool-cases (term == d.term)) [
      | inl same ↦ (d, ground arith, ground arith, inr e)
      | inr other ↦ (
        new_entry now index term m,
        ground (arith, get-set_self index (new_entry now index term m) s.entries),
        refl,
        inl refl,
      )
    ]
  ]

  override_frame :
      (now index term : ℕ) (m : HamokMessage E) (s : RaftLogs E) (j : ℕ)
      → j ≢ index
      → (JsMap.get j (compare_and_override now index term m s).0.entries ≡ JsMap.get j s.entries)
        × ((compare_and_override now index term m s).0.next_index ≡ s.next_index)
        × ((compare_and_override now index term m s).0.committed ≡ s.committed)
  unfolding compare_and_override
  override_frame now index term m s j h =
      ground (arith, get-set index j (new_entry now index term m) s.entries)

  add_stores :
      (now index term : ℕ) (m : HamokMessage E) (s : RaftLogs E)
      → index ≡ s.next_index
      → ((compare_and_add now index term m s).1 ≡ true)
        × ((compare_and_add now index term m s).0.next_index ≡ suc s.next_index)
        × (JsMap.get index (compare_and_add now index term m s).0.entries
            ≡ some (new_entry now s.next_index term m))
  unfolding compare_and_add
  add_stores now index term m s h =
      ground (arith, get-set_self s.next_index (new_entry now s.next_index term m) s.entries)

  add_frame :
      (now index term : ℕ) (m : HamokMessage E) (s : RaftLogs E) (j : ℕ)
      → j ≢ index
      → (JsMap.get j (compare_and_add now index term m s).0.entries ≡ JsMap.get j s.entries)
        × ((compare_and_add now index term m s).0.committed ≡ s.committed)
  unfolding compare_and_add
  add_frame now index term m s j h =
      ground (arith, get-set s.next_index j (new_entry now s.next_index term m) s.entries)

  store_old :
      (now term local index : ℕ) (m : HamokMessage E) (ms : List (HamokMessage E)) (s : RaftLogs E)
      (b : Bool)
      → ltb index local ≡ true
      → store_entries now term local index (m ∷ ms) s b
        ≡ store_entries now term local (suc index) ms (compare_and_override now index term m s).0 b
  unfolding store_entries
  store_old now term local index m ms s b h = simp h

  store_new :
      (now term local index : ℕ) (m : HamokMessage E) (ms : List (HamokMessage E)) (s : RaftLogs E)
      (b : Bool)
      → ltb index local ≡ false
      → store_entries now term local index (m ∷ ms) s b
        ≡ store_entries now term local
            (suc index)
            ms
            (compare_and_add now index term m s).0
            (b && (compare_and_add now index term m s).1)
  unfolding store_entries
  store_new now term local index m ms s b h = simp h

  -- The loop touches no index below its first one.
  pub store_frame :
      (now term local index : ℕ) (ms : List (HamokMessage E)) (s : RaftLogs E) (b : Bool) (j : ℕ)
      → j < index
      → (JsMap.get j (store_entries now term local index ms s b).0.entries ≡ JsMap.get j s.entries)
        × ((store_entries now term local index ms s b).0.committed ≡ s.committed)
  unfolding store_entries
  store_frame now term local index [] s b j h = (refl, refl)
  store_frame now term local index (m ∷ ms) s b j h = elim (Bool-cases (ltb index local)) [
    | inl old ↦
        let one = override_frame now index term m s j (λ e. omega arith) in
        let rest =
          store_frame now term local (suc index) ms (compare_and_override now index term m s).0 b j
            (omega arith) in
        rw (store_old now term local index m ms s b old) (rest.0 ∙ one.0, rest.1 ∙ one.2)
    | inr new ↦
        let one = add_frame now index term m s j (λ e. omega arith) in
        let rest =
          store_frame now term local (suc index) ms (compare_and_add now index term m s).0
            (b && (compare_and_add now index term m s).1) j (omega arith) in
        rw (store_new now term local index m ms s b new) (rest.0 ∙ one.0, rest.1 ∙ one.1)
  ]

  pub store_entries-IsValid :
      (now term local index : ℕ) (ms : List (HamokMessage E)) (s : RaftLogs E) (b : Bool)
      → IsValid s
      → IsValid (store_entries now term local index ms s b).0
  unfolding store_entries
  store_entries-IsValid now term local index [] s b v = v
  store_entries-IsValid now term local index (m ∷ ms) s b v = elim (Bool-cases (ltb index local)) [
    | inl old ↦ rw (store_old now term local index m ms s b old) (
        store_entries-IsValid now term local (suc index) ms _ b
          (compare_and_override-IsValid now index term m s v))
    | inr new ↦ rw (store_new now term local index m ms s b new) (
        store_entries-IsValid now term local (suc index) ms _ _
          (compare_and_add-IsValid now index term m s v))
  ]

  store_below-IsValid :
      (now term local n : ℕ) (ms : List (HamokMessage E)) (s : RaftLogs E)
      → IsValid s
      → IsValid (store_below now term local n ms s).0
  unfolding store_below
  store_below-IsValid now term local n [] s v = v
  store_below-IsValid now term local zero (m ∷ ms) s v =
      store_entries-IsValid now term local 0 ms _ true (override_below-IsValid now 0 term m s v)
  store_below-IsValid now term local (suc n) (m ∷ ms) s v =
      store_below-IsValid now term local n ms _ (override_below-IsValid now (suc n) term m s v)

  pub store_from-IsValid :
      (now term local : ℕ) (start : ℤ) (ms : List (HamokMessage E)) (s : RaftLogs E)
      → IsValid s
      → IsValid (store_from now term local start ms s).0
  unfolding store_from
  store_from-IsValid now term local (pos i) ms s v =
      store_entries-IsValid now term local i ms s true v
  store_from-IsValid now term local (negsuc n) ms s v = store_below-IsValid now term local n ms s v

  places :
      (term index : ℕ) (m : HamokMessage E) (ms : List (HamokMessage E)) (s mid last : RaftLogs E)
      → Stored term index m s mid
      → ((j : ℕ) → j ≢ index → JsMap.get j mid.entries ≡ JsMap.get j s.entries)
      → ((j : ℕ) → j < suc index → JsMap.get j last.entries ≡ JsMap.get j mid.entries)
      → ((k : ℕ) (x : HamokMessage E)
          → get_elem? ms k ≡ some x
          → Stored term (suc index + k) x mid last)
      → (k : ℕ) (x : HamokMessage E) → get_elem? (m ∷ ms) k ≡ some x
      → Stored term (index + k) x s last
  places term index m ms s mid last (d, at, t, from) frame keep tail zero x g =
      let same : index + 0 ≡ index = omega arith in
      rw same (d, keep index (omega arith) ∙ at, t, ground arith)
  places term index m ms s mid last one frame keep tail (suc k) x g =
      let same : index + suc k ≡ suc index + k = omega arith in
      let (d, at, t, from) = tail k x g in
      rw same (d, at, t, rw (← frame (suc index + k) (λ q. omega arith)) from)

  pub store_entries-Stored :
      (now term local index : ℕ) (ms : List (HamokMessage E)) (s : RaftLogs E)
      → index ≤ s.next_index
      → s.next_index ≡ max local index
      → let r = store_entries now term local index ms s true in
        (r.1 ≡ true)
        × (r.0.next_index ≡ max local (index + length ms))
        × ((k : ℕ) (m : HamokMessage E) → get_elem? ms k ≡ some m → Stored term (index + k) m s r.0)
  unfolding store_entries
  store_entries-Stored now term local index [] s h e = (refl, omega arith, λ k m g. cc)
  store_entries-Stored now term local index (m ∷ ms) s h e = elim (Bool-cases (ltb index local)) [
    | inl old ↦
        let inside : index < local = ground arith in
        let one = override_stores now index term m s (omega arith) in
        let same = (override_frame now index term m s (suc index) (λ q. omega arith)).1 in
        let rest =
          store_entries-Stored now term local (suc index) ms
            (compare_and_override now index term m s).0 (omega (arith, same))
            (omega (arith, same)) in
        rw (store_old now term local index m ms s true old) (
          rest.0,
          rest.1 ∙ omega arith,
          places term index m ms s (compare_and_override now index term m s).0
              (store_entries now term local (suc index) ms
                (compare_and_override now index term m s).0 true).0
              one (λ j k. (override_frame now index term m s j k).0)
              (λ j k. (store_frame now term local (suc index) ms _ true j k).0) rest.2,
        )
    | inr new ↦
        let end : index ≡ s.next_index = ground arith in
        let one = add_stores now index term m s end in
        let rest =
          store_entries-Stored now term local (suc index) ms (compare_and_add now index term m s).0
            (omega (arith, one.1)) (omega (arith, one.1)) in
        rw (store_new now term local index m ms s true new, one.0)
          (
            rest.0,
            rest.1 ∙ omega arith,
            places term index m ms s (compare_and_add now index term m s).0
                (store_entries now term local (suc index) ms (compare_and_add now index term m s).0
                  true).0
                (new_entry now s.next_index term m, one.2, refl, inl refl)
                (λ j k. (add_frame now index term m s j k).0)
                (λ j k. (store_frame now term local (suc index) ms _ true j k).0) rest.2,
          )
  ]

  -- With the log ending at the larger of the local next index and the first index of the request,
  -- the loop stores the request whole: it reports success, the log ends where the entries end or
  -- where it ended, and each entry stands at its index with the term, unless an entry of that term
  -- stood there before.
  pub store_entries_places :
      (now term local index k : ℕ) (m : HamokMessage E) (ms : List (HamokMessage E))
      (s : RaftLogs E)
      → index ≤ s.next_index
      → s.next_index ≡ max local index
      → get_elem? ms k ≡ some m
      → let r = store_entries now term local index ms s true in
        (r.1 ≡ true)
        × (r.0.next_index ≡ max local (index + length ms))
        × Stored term (index + k) m s r.0
  store_entries_places now term local index k m ms s h e g =
      let all = store_entries-Stored now term local index ms s h e in (all.0, all.1, all.2 k m g)
