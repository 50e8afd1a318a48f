-- ===== src/Logs/Committing.antt =====
-- What `commitUntil` of src/raft/MemoryStoredRaftLogs.ts commits.
use hamok_ts.JsMap.{JsMap}
use hamok_ts.Prelude.{
  sym, ◌⊎◌, none, ◌≢◌, get_elem?, ◌∙◌, ltb, Option, ◌<◌, ◌+◌, length, ap, range_from, ◌++◌, ℕ, zero,
  suc, ◌-◌, ◌≤◌, ◌≡◌, refl, List, [], ◌∷◌, arith, number_key, Option-cases, Bool-cases, inl, inr,
  leb,
}
use hamok_ts.JsMap
use hamok_ts.Logs.{some, high_water_mark, removes, expires, commits, RaftLogs, LogEntry, LogEvent}
use mathlib.Core.List.{append-nil}
use hamok_ts.Logs.Purge.{
  remove_until, remove_loop, expire_scan, drop_entry, expire_loop, expire_scanned, expire,
}
use hamok_ts.Logs.Commit.{commit_loop, expire_after, commit_until}
use hamok_ts.Logs.Invariant.{IsValid}
use hamok_ts.Logs.Removal.{remove_loop-committed}
use hamok_ts.Logs.Expiry.{expire-IsValid}

module _ {E : Type 0} where
  recommit-IsValid :
      (i : ℕ) (s : RaftLogs E)
      → s.committed ≤ i
      → i ≤ s.next_index
      → IsValid s
      → IsValid (record s { committed = i })
  recommit-IsValid i s h k v = record {
    unique = v.unique;
    placed = v.placed;
    below_unique = v.below_unique;
    below_placed = v.below_placed;
    counted = v.counted;
    committed_le = k;
    first_le = omega (arith, v.first_le);
  }

  loop-IsValid : (n : ℕ) (s : RaftLogs E) → IsValid s → IsValid (commit_loop n s).0
  unfolding commit_loop
  loop-IsValid zero s v = v
  loop-IsValid (suc n) s v = elim (Bool-cases (leb s.next_index s.committed)) [
    | inl none_left ↦ rw (none_left) v
    | inr some_left ↦ rw (some_left) (elim (Option-cases (JsMap.get s.committed s.entries)) [
      | inl e ↦ rw (e) v
      | inr (d, e) ↦
          rw (e)
            (loop-IsValid n _ (recommit-IsValid (suc s.committed) s (omega arith) (ground arith) v))
    ])
  ]

  after-IsValid :
      (now : ℕ) (s : RaftLogs E) (es : List (LogEntry E)) (evs : List (LogEvent E))
      → IsValid s
      → IsValid (expire_after now (s, es, evs)).0
        × ((expire_after now (s, es, evs)).0.committed ≡ s.committed)
  unfolding expire_after
  after-IsValid now s [] evs v = (v, refl)
  after-IsValid now s (d ∷ es) evs v = expire-IsValid now s v

  -- `commitUntil` keeps the log well formed.
  pub commit_until-IsValid :
      (now until : ℕ) (s : RaftLogs E) → IsValid s → IsValid (commit_until now until s).0
  unfolding commit_until
  commit_until-IsValid now until s v = elim (Bool-cases (leb until s.committed)) [
    | inl old ↦ rw (old) v
    | inr new ↦ rw (new) (after-IsValid now _ _ _ (loop-IsValid (until - s.committed) s v)).0
  ]

  -- The indices of the commits among events.
  abbrev pub commit_indices : List (LogEvent E) → List ℕ
  commit_indices [] = []
  commit_indices (commits i m ∷ evs) = i ∷ commit_indices evs
  commit_indices (expires i m ∷ evs) = commit_indices evs
  commit_indices (removes i m ∷ evs) = commit_indices evs
  commit_indices (high_water_mark b ∷ evs) = commit_indices evs

  pub commit_indices-append :
      (xs ys : List (LogEvent E))
      → commit_indices (xs ++ ys) ≡ commit_indices xs ++ commit_indices ys
  commit_indices-append [] ys = refl
  commit_indices-append (commits i m ∷ xs) ys = ap (λ l. i ∷ l) (commit_indices-append xs ys)
  commit_indices-append (expires i m ∷ xs) ys = commit_indices-append xs ys
  commit_indices-append (removes i m ∷ xs) ys = commit_indices-append xs ys
  commit_indices-append (high_water_mark b ∷ xs) ys = commit_indices-append xs ys

  -- What the loop commits: an index for each returned entry, from the old commit index on, and
  -- nothing else changes.
  loop_commits :
      (n : ℕ) (s : RaftLogs E)
      → (commit_indices (commit_loop n s).2 ≡ range_from s.committed (length (commit_loop n s).1))
        × ((commit_loop n s).0 ≡ record s { committed = s.committed + length (commit_loop n s).1 })
        × (length (commit_loop n s).1 ≤ n)
  unfolding commit_loop
  loop_commits zero s = (refl, ground arith, omega arith)
  loop_commits (suc n) s = elim (Bool-cases (leb s.next_index s.committed)) [
    | inl none_left ↦ rw (none_left) (refl, ground arith, omega arith)
    | inr some_left ↦ rw (some_left) (elim (Option-cases (JsMap.get s.committed s.entries)) [
      | inl e ↦ rw (e) (refl, ground arith, omega arith)
      | inr (d, e) ↦
          let rest = loop_commits n (record s { committed = suc s.committed }) in
          rw (e) (ap (λ l. s.committed ∷ l) rest.0, ground (arith, rest.1), omega (arith, rest.2))
    ])
  ]

  at_place :
      (c : ℕ) (d : LogEntry E) (rest : List (LogEntry E)) (m : JsMap ℕ (LogEntry E))
      → JsMap.get c m ≡ some d
      → ((i : ℕ) → i < length rest → get_elem? rest i ≡ JsMap.get (suc c + i) m)
      → (i : ℕ) → i < suc (length rest)
      → get_elem? (d ∷ rest) i ≡ JsMap.get (c + i) m
  at_place c d rest m e tail zero h = let same : c + 0 ≡ c = omega arith in rw same (sym e)
  at_place c d rest m e tail (suc i) h =
      let same : c + suc i ≡ suc c + i = omega arith in rw same (tail i (omega arith))

  -- The entry returned at place `k` is the entry of the log at that many past the commit index.
  loop_entries :
      (n k : ℕ) (s : RaftLogs E)
      → k < length (commit_loop n s).1
      → get_elem? (commit_loop n s).1 k ≡ JsMap.get (s.committed + k) s.entries
  unfolding commit_loop
  loop_entries zero k s h = absurd (omega arith)
  loop_entries (suc n) k s h = elim (Bool-cases (leb s.next_index s.committed)) [
    | inl none_left ↦ absurd (let h' : k < 0 = rw (commit_loop, none_left) at h in omega arith)
    | inr some_left ↦ elim (Option-cases (JsMap.get s.committed s.entries)) [
      | inl e ↦ absurd (let h' : k < 0 = rw (commit_loop, some_left, e) at h in omega arith)
      | inr (d, e) ↦
          rw (some_left, e)
            (at_place s.committed d (commit_loop n (record s { committed = suc s.committed })).1
              s.entries e (λ i. loop_entries n i (record s { committed = suc s.committed })) k
              (rw (commit_loop, some_left, e) at h))
    ]
  ]

  -- With every index there, the loop makes all its rounds.
  loop_complete :
      (n : ℕ) (s : RaftLogs E)
      → s.committed + n ≤ s.next_index
      → ((i : ℕ) → s.committed ≤ i → i < s.committed + n → JsMap.get i s.entries ≢ none)
      → length (commit_loop n s).1 ≡ n
  unfolding commit_loop
  loop_complete zero s h there = refl
  loop_complete (suc n) s h there = elim (Option-cases (JsMap.get s.committed s.entries)) [
    | inl e ↦ absurd (there s.committed (omega arith) (omega arith) e)
    | inr (d, e) ↦ elim (Bool-cases (leb s.next_index s.committed)) [
      | inl none_left ↦ absurd (ground arith)
      | inr some_left ↦
          rw (some_left, e)
            (ap suc (
              loop_complete n (record s { committed = suc s.committed }) (omega arith)
                (λ i from below. there i (omega arith) (omega arith))))
    ]
  ]

  expire_loop_silent :
      (n index : ℕ) (s : RaftLogs E) → commit_indices (expire_loop n index s).1 ≡ []
  unfolding expire_loop
  expire_loop_silent zero index s = refl
  expire_loop_silent (suc n) index s = elim (Option-cases (JsMap.get index s.entries)) [
    | inl e ↦ rw (e, expire_loop) (expire_loop_silent n (suc index) s)
    | inr (d, e) ↦ rw (e, expire_loop) (expire_loop_silent n (suc index) (drop_entry index d s))
  ]

  remove_loop_silent :
      (n index : ℕ) (s : RaftLogs E) → commit_indices (remove_loop n index s).1 ≡ []
  unfolding remove_loop
  remove_loop_silent zero index s = refl
  remove_loop_silent (suc n) index s = elim (Option-cases (JsMap.get index s.entries)) [
    | inl e ↦
        rw (e, remove_loop)
          (remove_loop_silent n (suc index) (record s { first_index = suc index }))
    | inr (d, e) ↦ rw (e, remove_loop) (remove_loop_silent n (suc index) (drop_entry index d s))
  ]

  -- Removing commits nothing.
  pub remove_until_silent :
      (first : ℕ) (s : RaftLogs E)
      → (commit_indices (remove_until first s).1 ≡ [])
        × ((remove_until first s).0.committed ≡ s.committed)
  unfolding remove_until
  remove_until_silent first s = ground (
    arith,
    remove_loop_silent (s.committed - suc s.first_index) s.first_index s,
    remove_loop-committed (s.committed - suc s.first_index) s.first_index s,
  )

  scanned_silent : (s : RaftLogs E) (x : Option ℕ) → commit_indices (expire_scanned s x).1 ≡ []
  unfolding expire_scanned
  scanned_silent s none = refl
  scanned_silent s (some r) = ground (arith, expire_loop_silent (r - s.first_index) s.first_index s)

  -- Expiring commits nothing.
  expire_silent : (now : ℕ) (s : RaftLogs E) → commit_indices (expire now s).1 ≡ []
  unfolding expire
  expire_silent now s = elim (Bool-cases (ltb s.config.expiration_time_in_ms 1)) [
    | inl infinite ↦ rw (infinite)
    | inr finite ↦ rw (finite) (
        scanned_silent (expire_scan now (s.committed - suc s.first_index) s.first_index none s).0
          (expire_scan now (s.committed - suc s.first_index) s.first_index none s).1)
  ]

  after_commits :
      (now : ℕ) (s : RaftLogs E) (es : List (LogEntry E)) (evs : List (LogEvent E))
      → (commit_indices (expire_after now (s, es, evs)).2 ≡ commit_indices evs)
        × ((expire_after now (s, es, evs)).1 ≡ es)
  unfolding expire_after
  after_commits now s [] evs = (refl, refl)
  after_commits now s (d ∷ es) evs =
      (commit_indices-append evs _ ∙ rw (expire_silent now s) (append-nil _), refl)

  -- A call of commitUntil on a well-formed log emits a commit for each entry that it returns, at
  -- consecutive indices from the old commit index on, and moves the commit index by as many, never
  -- past the request.
  pub commit_until_commits :
      (now until : ℕ) (s : RaftLogs E)
      → IsValid s
      → let r = commit_until now until s in
        (commit_indices r.2 ≡ range_from s.committed (length r.1))
        × (r.0.committed ≡ s.committed + length r.1)
        × ((r.0.committed ≤ until) ⊎ (r.0.committed ≡ s.committed))
  unfolding commit_until
  commit_until_commits now until s v = elim (Bool-cases (leb until s.committed)) [
    | inl old ↦ rw (old) (refl, omega arith, inr refl)
    | inr new ↦
        let loop = commit_loop (until - s.committed) s in
        let done = loop_commits (until - s.committed) s in
        let after = after_commits now loop.0 loop.1 loop.2 in
        let keeps =
          after-IsValid now loop.0 loop.1 loop.2 (loop-IsValid (until - s.committed) s v) in
        let moved : loop.0.committed ≡ s.committed + length loop.1 =
          ap (λ (t : RaftLogs E). t.committed) done.1 in
        let above : s.committed < until = ground arith in
        rw (new, after.1)
          (after.0 ∙ done.0, keeps.1 ∙ moved, inl (omega (arith, keeps.1, moved, done.2)))
  ]

  -- Where every index of a well-formed log from the commit index up to a request within the log is
  -- there, commitUntil commits up to it.
  pub commit_until_reaches :
      (now until : ℕ) (s : RaftLogs E)
      → IsValid s
      → s.committed ≤ until
      → until ≤ s.next_index
      → ((i : ℕ) → s.committed ≤ i → i < until → JsMap.get i s.entries ≢ none)
      → (commit_until now until s).0.committed ≡ until
  unfolding commit_until
  commit_until_reaches now until s v h k there = elim (Bool-cases (leb until s.committed)) [
    | inl old ↦ rw (old) (let low : until ≤ s.committed = ground arith in omega arith)
    | inr new ↦
        let loop = commit_loop (until - s.committed) s in
        let done = loop_commits (until - s.committed) s in
        let moved : loop.0.committed ≡ s.committed + length loop.1 =
          ap (λ (t : RaftLogs E). t.committed) done.1 in
        let all =
          loop_complete (until - s.committed) s (omega arith)
            (λ i from below. there i from (omega arith)) in
        let keeps =
          after-IsValid now loop.0 loop.1 loop.2 (loop-IsValid (until - s.committed) s v) in
        rw (new) (omega (arith, keeps.1, moved, all))
  ]

  -- Each entry that commitUntil returns is the entry that the log held at its index.
  pub commit_until_entries :
      (now until k : ℕ) (s : RaftLogs E)
      → k < length (commit_until now until s).1
      → get_elem? (commit_until now until s).1 k ≡ JsMap.get (s.committed + k) s.entries
  unfolding commit_until
  commit_until_entries now until k s h = elim (Bool-cases (leb until s.committed)) [
    | inl old ↦ absurd (let h' : k < 0 = rw (commit_until, old) at h in omega arith)
    | inr new ↦
        let loop = commit_loop (until - s.committed) s in
        let after = after_commits now loop.0 loop.1 loop.2 in
        rw (new, after.1)
          (loop_entries (until - s.committed) k s (rw (commit_until, new, after.1) at h))
  ]
