-- ===== src/Raft/Follower/Gap.antt =====
-- A follower of src/raft/RaftFollowerState.ts whose log ends before the entries that it gets.
use hamok_ts.Prelude.{
  ap, ℕ, suc, ◌+◌, ◌-◌, ◌<◌, ◌≡◌, refl, ◌∙◌, true, some, List, [], ◌∷◌, arith, length, range_from,
  number_key, inl, inr,
}
use hamok_ts.JsMap
use hamok_ts.Message.{HamokMessage}
use hamok_ts.Logs.{RaftLogs, LogEntry, reset}
use hamok_ts.Logs.Commit.{commit_until}
use hamok_ts.Logs.Invariant.{reset-IsValid}
use hamok_ts.Logs.Committing.{commit_indices, commit_until_commits}
use hamok_ts.Raft.Follower.{store_entries, close_gap}
use hamok_ts.Raft.Follower.Storing.{
  Stored, store_entries-IsValid, store_entries-Stored, store_frame,
}

module _ {E : Type 0} where
  close_gap_resets :
      (leader_next n : ℕ) (s : RaftLogs E)
      → s.next_index + n < leader_next
      → close_gap leader_next n s ≡ reset (leader_next - n) s
  unfolding close_gap
  close_gap_resets leader_next n s h = ground arith

  Stored-fresh :
      (term i : ℕ) (m : HamokMessage E) (old new : RaftLogs E)
      → old.entries ≡ []
      → Stored term (i + 0) m old new
      → (d : LogEntry E) × (JsMap.get i new.entries ≡ some d) × (d.entry ≡ m)
  unfolding JsMap.get
  Stored-fresh term i m old new none_there (d, at, t, inl e) =
      let same : i + 0 ≡ i = omega arith in (d, rw same at at, e)
  Stored-fresh term i m old new none_there (d, at, t, inr e) =
      absurd (let e' : JsMap.get (i + 0) [] ≡ some d = rw none_there at e in cc)

  -- Where a request does not reach back to the follower's log, the log is reset to the index of
  -- the request's first entry as the commit index: that entry is stored, at an index that counts
  -- as committed already, and no later call of commitUntil on that log commits it.
  pub gap_skips_first :
      (now term leader_next : ℕ) (m : HamokMessage E) (ms : List (HamokMessage E)) (s : RaftLogs E)
      → s.next_index + suc (length ms) < leader_next
      → let first = leader_next - suc (length ms) in
        let old = close_gap leader_next (suc (length ms)) s in
        let new = (store_entries now term old.next_index first (m ∷ ms) old true).0 in
        ((d : LogEntry E) × (JsMap.get first new.entries ≡ some d) × (d.entry ≡ m))
        × (new.committed ≡ suc first)
        × ((later until : ℕ)
            → commit_indices (commit_until later until new).2
              ≡ range_from (suc first) (length (commit_until later until new).1))
  unfolding reset
  gap_skips_first now term leader_next m ms s h =
      let first = leader_next - suc (length ms) in
      let old = reset first s in
      let v = reset-IsValid first s in
      let new = (store_entries now term (suc first) first (m ∷ ms) old true).0 in
      let stored =
        store_entries-Stored now term (suc first) first (m ∷ ms) old (omega arith) (omega arith) in
      let kept : new.committed ≡ suc first =
        (store_frame now term (suc first) first (m ∷ ms) old true 0 (omega arith)).1 in
      rw (close_gap_resets leader_next (suc (length ms)) s h) (
        Stored-fresh term first m old new refl (stored.2 0 m refl),
        kept,
        λ later until.
            (commit_until_commits later until new
              (store_entries-IsValid now term (suc first) first (m ∷ ms) old true v)).0
            ∙ ap (λ n. range_from n (length (commit_until later until new).1)) kept,
      )
