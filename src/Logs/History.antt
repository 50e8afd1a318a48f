-- ===== src/Logs/History.antt =====
-- Histories of a log: sequences of the operations of src/raft/MemoryStoredRaftLogs.ts, as the Raft
-- states call them, between two resets.
use hamok_ts.Prelude.{
  zero, ℕ, ℤ, suc, ◌+◌, ◌≡◌, refl, ◌∙◌, ap, Option, List, [], ◌∷◌, ◌++◌, range_from, length, arith,
}
use hamok_ts.Message.{HamokMessage}
use hamok_ts.Logs.{
  RaftLogs, LogEvent, submit, compare_and_override, compare_and_add, override_below,
}
use hamok_ts.Logs.Collection.{collect_entries, collect_from}
use hamok_ts.Logs.Purge.{remove_until}
use hamok_ts.Logs.Commit.{commit_until}
use hamok_ts.Logs.Invariant.{
  IsValid, submit-IsValid, compare_and_override-IsValid, compare_and_add-IsValid,
  override_below-IsValid,
}
use hamok_ts.Logs.Collecting.{collect_entries-IsValid, collect_from-IsValid}
use hamok_ts.Logs.Removal.{remove_until-IsValid}
use hamok_ts.Logs.Committing.{
  remove_until_silent, commit_indices, commit_indices-append, commit_until-IsValid,
  commit_until_commits,
}

-- `overrides_below now n` overrides at the index -(n + 1).
pub data LogCall (E : Type 0) : Type 0 where
  submits : ℕ → ℕ → HamokMessage E → LogCall E
  overrides : ℕ → ℕ → ℕ → HamokMessage E → LogCall E
  overrides_below : ℕ → ℕ → ℕ → HamokMessage E → LogCall E
  adds : ℕ → ℕ → ℕ → HamokMessage E → LogCall E
  commits_until : ℕ → ℕ → LogCall E
  removes_until : ℕ → LogCall E
  collects : ℕ → Option ℕ → LogCall E
  collects_from : ℤ → LogCall E

range_from-append :
    (first n k : ℕ) → range_from first n ++ range_from (first + n) k ≡ range_from first (n + k)
range_from-append first zero k =
    let start : first + 0 ≡ first = omega arith in
    let all : 0 + k ≡ k = omega arith in rw (start, all)
range_from-append first (suc n) k =
    let start : first + suc n ≡ suc first + n = omega arith in
    let all : suc n + k ≡ suc (n + k) = omega arith in
    rw (start, all) (ap (λ l. first ∷ l) (range_from-append (suc first) n k))

module _ {E : Type 0} where
  -- A call, with the events that it emits.
  unfoldable pub call : LogCall E → RaftLogs E → RaftLogs E × List (LogEvent E)
  call (submits now term m) s = let (s', i, events) = submit now term m s in (s', events)
  call (overrides now i term m) s = ((compare_and_override now i term m s).0, [])
  call (overrides_below now n term m) s = ((override_below now n term m s).0, [])
  call (adds now i term m) s = ((compare_and_add now i term m s).0, [])
  call (commits_until now until) s =
      let (s', entries, events) = commit_until now until s in (s', events)
  call (removes_until first) s = remove_until first s
  call (collects start end) s = ((collect_entries start end s).1, [])
  call (collects_from start) s = ((collect_from start s).1, [])

  unfoldable pub run_calls : List (LogCall E) → RaftLogs E → RaftLogs E × List (LogEvent E)
  run_calls [] s = (s, [])
  run_calls (c ∷ cs) s =
      let (s', events) = call c s in let (s'', more) = run_calls cs s' in (s'', events ++ more)

  pub call-IsValid : (c : LogCall E) (s : RaftLogs E) → IsValid s → IsValid (call c s).0
  unfolding call
  call-IsValid (submits now term m) s v = submit-IsValid now term m s v
  call-IsValid (overrides now i term m) s v = compare_and_override-IsValid now i term m s v
  call-IsValid (overrides_below now n term m) s v = override_below-IsValid now n term m s v
  call-IsValid (adds now i term m) s v = compare_and_add-IsValid now i term m s v
  call-IsValid (commits_until now until) s v = commit_until-IsValid now until s v
  call-IsValid (removes_until first) s v = remove_until-IsValid first s v
  call-IsValid (collects start end) s v = (collect_entries-IsValid start end s v).0
  call-IsValid (collects_from start) s v = (collect_from-IsValid start s v).0

  add_committed :
      (now i term : ℕ) (m : HamokMessage E) (s : RaftLogs E)
      → (compare_and_add now i term m s).0.committed ≡ s.committed
  unfolding compare_and_add
  add_committed now i term m s = ground arith

  override_committed :
      (now i term : ℕ) (m : HamokMessage E) (s : RaftLogs E)
      → (compare_and_override now i term m s).0.committed ≡ s.committed
  unfolding compare_and_override
  override_committed now i term m s = ground arith

  override_below_committed :
      (now n term : ℕ) (m : HamokMessage E) (s : RaftLogs E)
      → (override_below now n term m s).0.committed ≡ s.committed
  unfolding override_below
  override_below_committed now n term m s = ground arith

  submit_silent :
      (now term : ℕ) (m : HamokMessage E) (s : RaftLogs E)
      → (commit_indices (submit now term m s).2 ≡ [])
        × ((submit now term m s).0.committed ≡ s.committed)
  unfolding submit
  submit_silent now term m s = ground arith

  -- A call commits consecutive indices from the commit index on, and moves it by their number.
  call_commits :
      (c : LogCall E) (s : RaftLogs E)
      → IsValid s
      → (n : ℕ) × (commit_indices (call c s).1 ≡ range_from s.committed n)
        × ((call c s).0.committed ≡ s.committed + n)
  unfolding call
  call_commits (submits now term m) s v =
      let h = submit_silent now term m s in (0, h.0, h.1 ∙ omega arith)
  call_commits (overrides now i term m) s v =
      (0, refl, override_committed now i term m s ∙ omega arith)
  call_commits (overrides_below now n term m) s v =
      (0, refl, override_below_committed now n term m s ∙ omega arith)
  call_commits (adds now i term m) s v = (0, refl, add_committed now i term m s ∙ omega arith)
  call_commits (commits_until now until) s v =
      let h = commit_until_commits now until s v in (length (commit_until now until s).1, h.0, h.1)
  call_commits (removes_until first) s v =
      let h = remove_until_silent first s in (0, h.0, h.1 ∙ omega arith)
  call_commits (collects start end) s v =
      (0, refl, (collect_entries-IsValid start end s v).1 ∙ omega arith)
  call_commits (collects_from start) s v =
      (0, refl, (collect_from-IsValid start s v).1 ∙ omega arith)

  -- In any sequence of submit, compareAndOverride, compareAndAdd, commitUntil, removeUntil and
  -- collectEntries on a well-formed log, where compareAndOverride may be at a negative index and
  -- collectEntries without an end from one, the commits are emitted at consecutive indices from
  -- the commit index on, each once and in order, and the log stays well formed.
  pub run_calls_commit :
      (cs : List (LogCall E)) (s : RaftLogs E)
      → IsValid s
      → IsValid (run_calls cs s).0
        × ((n : ℕ) × (commit_indices (run_calls cs s).1 ≡ range_from s.committed n)
            × ((run_calls cs s).0.committed ≡ s.committed + n))
  unfolding run_calls
  run_calls_commit [] s v = (v, (0, refl, omega arith))
  run_calls_commit (c ∷ cs) s v =
      let (n, events, moved) = call_commits c s v in
      let rest = run_calls_commit cs (call c s).0 (call-IsValid c s v) in
      let (k, more, further) = rest.1 in
      (
        rest.0,
        (
          n + k,
          commit_indices-append (call c s).1 (run_calls cs (call c s).0).1
              ∙ rw (events, more, moved) (range_from-append s.committed n k),
          omega (arith, further, moved),
        ),
      )
