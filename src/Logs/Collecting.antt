-- ===== src/Logs/Collecting.antt =====
-- What `collectEntries` of src/raft/MemoryStoredRaftLogs.ts returns.
use hamok_ts.Prelude.{
  dec_lt, ℤ, pos, negsuc, ℕ, zero, suc, ◌+◌, ◌-◌, ◌≤◌, ◌<◌, ◌≡◌, ◌≢◌, refl, sym, ◌∙◌, ap, Option,
  none, some, Bool, arith, Option-cases, Bool-cases, inl, inr, ltb, length, get_elem?, number_key,
  ◌∷◌,
}
use hamok_ts.JsMap
use hamok_ts.JsMap.{JsMap}
use hamok_ts.Logs.{RaftLogs, LogEntry}
use hamok_ts.Logs.Collection.{collect, note_missing, collect_entries, collect_from}
use hamok_ts.Logs.Invariant.{IsValid}

module _ {E : Type 0} where
  note_missing-IsValid :
      (n : ℕ) (s : RaftLogs E)
      → IsValid s
      → IsValid (note_missing n s) × ((note_missing n s).committed ≡ s.committed)
  unfolding note_missing
  note_missing-IsValid n s v = elim (Bool-cases (ltb 0 n)) [
    | inl some_missing ↦ rw (some_missing) (elim (Bool-cases s.missing_entries_logged) [
      | inl e ↦ rw (e) (marked Bool.true, refl)
      | inr e ↦ rw (e) (marked Bool.true, refl)
    ])
    | inr none_missing ↦ rw (none_missing) (elim (Bool-cases s.missing_entries_logged) [
      | inl e ↦ rw (e) (marked Bool.false, refl)
      | inr e ↦ rw (e) (marked Bool.false, refl)
    ])
  ]
    where
      marked : (b : Bool) → IsValid (record s { missing_entries_logged = b })
      marked b = record {
        unique = v.unique;
        placed = v.placed;
        below_unique = v.below_unique;
        below_placed = v.below_placed;
        counted = v.counted;
        committed_le = v.committed_le;
        first_le = v.first_le;
      }

  -- `collectEntries` only notes whether entries were missing.
  pub collect_entries-IsValid :
      (start : ℕ) (end : Option ℕ) (s : RaftLogs E)
      → IsValid s
      → IsValid (collect_entries start end s).1
        × ((collect_entries start end s).1.committed ≡ s.committed)
  unfolding collect_entries
  collect_entries-IsValid start none s v = note_missing-IsValid _ s v
  collect_entries-IsValid start (some end) s v = elim (Bool-cases (ltb end start)) [
    | inl odd ↦ rw (odd) (v, refl)
    | inr fine ↦ rw (fine) (elim (Bool-cases (ltb s.next_index end)) [
      | inl beyond ↦ rw (beyond) (note_missing-IsValid _ s v)
      | inr within ↦ rw (within) (note_missing-IsValid _ s v)
    ])
  ]

  pub collect_from-IsValid :
      (start : ℤ) (s : RaftLogs E)
      → IsValid s
      → IsValid (collect_from start s).1 × ((collect_from start s).1.committed ≡ s.committed)
  unfolding collect_from
  collect_from-IsValid (pos i) s v = collect_entries-IsValid i none s v
  collect_from-IsValid (negsuc n) s v = note_missing-IsValid _ s v

  collect_gap :
      (n index : ℕ) (m : JsMap ℕ (LogEntry E))
      → JsMap.get index m ≡ none
      → (collect (suc n) index m).0 ≡ (collect n (suc index) m).0
  unfolding collect
  collect_gap n index m e = rw (e, collect)

  collect_there :
      (n index : ℕ) (m : JsMap ℕ (LogEntry E)) (d : LogEntry E)
      → JsMap.get index m ≡ some d
      → (collect (suc n) index m).0 ≡ d ∷ (collect n (suc index) m).0
  unfolding collect
  collect_there n index m d e = rw (e, collect)

  -- Over a run of indices that are all there, the entry at place `k` is the one at `index + k`.
  collect_run :
      (n index : ℕ) (m : JsMap ℕ (LogEntry E))
      → ((i : ℕ) → index ≤ i → i < index + n → JsMap.get i m ≢ none)
      → (length (collect n index m).0 ≡ n)
        × ((k : ℕ) → k < n → get_elem? (collect n index m).0 k ≡ JsMap.get (index + k) m)
  collect_run zero index m there = (unfold collect in refl, λ k h. absurd (omega arith))
  collect_run (suc n) index m there =
      let rest =
        collect_run n (suc index) m (λ i from below. there i (omega arith) (omega arith)) in
      elim (Option-cases (JsMap.get index m)) [
        | inl e ↦ absurd (there index (omega arith) (omega arith) e)
        | inr (d, e) ↦ rw (collect_there n index m d e) (ap suc rest.0, at d e rest.1)
      ]
    where
      at :
          (d : LogEntry E)
          → JsMap.get index m ≡ some d
          → ((k : ℕ)
              → k < n
              → get_elem? (collect n (suc index) m).0 k ≡ JsMap.get (suc index + k) m)
          → (k : ℕ) → k < suc n
          → get_elem? (d ∷ (collect n (suc index) m).0) k ≡ JsMap.get (index + k) m
      at d e tail zero h = let same : index + 0 ≡ index = omega arith in rw same (sym e)
      at d e tail (suc k) h =
          let same : index + suc k ≡ suc index + k = omega arith in rw same (tail k (omega arith))

  -- Where nothing stands below `first` and everything from there on, the gap is skipped.
  collect_skips :
      (gap n index : ℕ) (m : JsMap ℕ (LogEntry E))
      → ((i : ℕ) → i < index + gap → JsMap.get i m ≡ none)
      → (collect (gap + n) index m).0 ≡ (collect n (index + gap) m).0
  collect_skips zero n index m free =
      let same : index + 0 ≡ index = omega arith in
      let all : 0 + n ≡ n = omega arith in rw (same, all)
  collect_skips (suc gap) n index m free =
      let same : index + suc gap ≡ suc index + gap = omega arith in
      let all : suc gap + n ≡ suc (gap + n) = omega arith in
      rw (same, all)
        (collect_gap (gap + n) index m (free index (omega arith))
          ∙ collect_skips gap n (suc index) m (λ i h. free i (omega arith)))

  -- The entries that a leader collects for a follower from index start on, of a log that is purged
  -- below first and has no gap from there on: entry k of the batch is the entry at nextIndex -
  -- length + k, the index at which the follower stores it.
  pub collect_entries_places :
      (start first k : ℕ) (s : RaftLogs E)
      → start ≤ s.next_index
      → first ≤ s.next_index
      → ((i : ℕ) → i < first → JsMap.get i s.entries ≡ none)
      → ((i : ℕ) → first ≤ i → i < s.next_index → JsMap.get i s.entries ≢ none)
      → k < length (collect_entries start none s).0
      → let found = (collect_entries start none s).0 in
        get_elem? found k ≡ JsMap.get (s.next_index - length found + k) s.entries
  unfolding collect_entries
  collect_entries_places start first k s h h' free there below = elim (dec_lt start first) [
    | yes purged ↦
        let all : s.next_index - start ≡ (first - start) + (s.next_index - first) = omega arith in
        let from : start + (first - start) ≡ first = omega arith in
        let run =
          collect_run (s.next_index - first) first s.entries (λ i a b. there i a (omega arith)) in
        let skip : (collect (s.next_index - start) start s.entries).0
            ≡ (collect (s.next_index - first) first s.entries).0 =
          rw (all) (
            collect_skips (first - start) (s.next_index - first) start s.entries
              (λ i a. free i (omega arith))
            ∙ rw (from)) in
        let back : s.next_index - (s.next_index - first) + k ≡ first + k = omega arith in
        rw (skip, run.0, back) (run.1 k (rw (skip, run.0) at below))
    | no held ↦
        let run =
          collect_run (s.next_index - start) start s.entries
            (λ i a b. there i (omega arith) (omega arith)) in
        let back : s.next_index - (s.next_index - start) + k ≡ start + k = omega arith in
        rw (run.0, back) (run.1 k (rw (run.0) at below))
  ]
