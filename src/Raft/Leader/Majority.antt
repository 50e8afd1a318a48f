-- ===== src/Raft/Leader/Majority.antt =====
-- What a leader of src/raft/RaftLeaderState.ts commits.
use hamok_ts.Prelude.{
  string_key, pred_int, dec_lt, ℕ, ℤ, suc, ◌≤◌, ◌≡◌, refl, max, String, true, false, List, [], ◌∷◌,
  ◌⊎◌, inl, inr, Bool-cases, arith, ltb, ◌==◌, ◌&&◌,
}
use hamok_ts.JsMap
use hamok_ts.JsMap.{JsMap}
use hamok_ts.Logs.{LogEntry}
use hamok_ts.Logs.Collection.{uncommitted}
use hamok_ts.Logs.Invariant.{IsValid}
use hamok_ts.Logs.Committing.{commit_until_commits}
use hamok_ts.Raft.Engine.{RaftEngine}
use hamok_ts.Raft.Leader.{
  LeaderState, RaftAppendEntriesResponse, max_commit, acknowledge, commit_majority, has_majority,
  int_le_index,
}

module _ {A : Type 0} where
  abbrev pub IsIn : A → List A → Type 0
  IsIn a [] = ⊥
  IsIn a (x ∷ xs) = (a ≡ x) ⊎ IsIn a xs

module _ {E : Type 0} where
  -- An entry that the leader may commit: of its own term, below the peer's next index, and with
  -- more than half of the peers known to have it.
  abbrev pub Committable : ℤ → ℕ → JsMap String ℤ → List String → LogEntry E → Type 0
  Committable next term matched peers d =
      (d.term ≡ term)
      × (int_le_index next d.index ≡ false)
      × (has_majority matched peers d.index ≡ true)

  -- `max_commit` is the index after a committable entry of the list, or what it started from.
  pub max_commit_sound :
      (next : ℤ) (term : ℕ) (matched : JsMap String ℤ) (peers : List String)
      (ds : List (LogEntry E)) (found : ℕ)
      → (max_commit next term matched peers ds found ≡ found)
        ⊎ ((d : LogEntry E) × IsIn d ds
            × Committable next term matched peers d
            × (max_commit next term matched peers ds found ≡ suc d.index))
  unfolding max_commit
  max_commit_sound next term matched peers [] found = inl refl
  max_commit_sound next term matched peers (x ∷ ds) found =
      elim (Bool-cases (int_le_index next x.index)) [
        | inl past ↦ rw (past) (inl refl)
        | inr below ↦
            rw (below) (elim (Bool-cases (x.term == term && has_majority matched peers x.index)) [
              | inl fits ↦ rw (fits) (
                  counted below fits
                    (max_commit_sound next term matched peers ds (max found (suc x.index))))
              | inr fails ↦ rw (fails) (passed (max_commit_sound next term matched peers ds found))
            ])
      ]
    where
      Result : ℕ → Type 0
      Result n =
          (n ≡ found)
          ⊎ ((d : LogEntry E) × IsIn d (x ∷ ds)
              × Committable next term matched peers d
              × (n ≡ suc d.index))

      passed :
          {n : ℕ}
          → (n ≡ found)
            ⊎ ((d : LogEntry E) × IsIn d ds
                × Committable next term matched peers d
                × (n ≡ suc d.index))
          → Result n
      passed (inl e) = inl e
      passed (inr (d, i, c, e)) = inr (d, inr i, c, e)

      counted :
          {n : ℕ}
          → int_le_index next x.index ≡ false
          → (x.term == term && has_majority matched peers x.index) ≡ true
          → (n ≡ max found (suc x.index))
            ⊎ ((d : LogEntry E) × IsIn d ds
                × Committable next term matched peers d
                × (n ≡ suc d.index))
          → Result n
      counted below fits (inl e) = elim (dec_lt found (suc x.index)) [
        | yes p ↦ inr (x, inl refl, (ground arith, below, ground arith), omega arith)
        | no q ↦ inl (omega arith)
      ]
      counted below fits (inr (d, i, c, e)) = inr (d, inr i, c, e)

  -- What a successful answer to a leader with a well-formed log commits: the commit index stays,
  -- or it moves to at most an entry that was not committed, is of the leader's term and below the
  -- answered next index, and that more than half of the peers are known to have.
  pub acknowledge_commits :
      (now : ℕ) (r : RaftAppendEntriesResponse) (l : LeaderState) (e : RaftEngine E)
      → IsValid e.logs
      → let e' = (acknowledge now r l e).0 in
        (e'.logs.committed ≡ e.logs.committed)
        ⊎ ((d : LogEntry E) × IsIn d (uncommitted e.logs)
            × Committable r.peer_next_index l.current_term e'.props.match_index e.remote_peers d
            × (e'.logs.committed ≤ suc d.index))
  unfolding acknowledge commit_majority
  acknowledge_commits now r l e v =
      let matched = JsMap.set r.source_peer_id (pred_int r.peer_next_index) e.props.match_index in
      let until =
        max_commit r.peer_next_index l.current_term matched e.remote_peers (uncommitted e.logs) 0 in
      let done = commit_until_commits now until e.logs v in
      elim (max_commit_sound r.peer_next_index l.current_term matched e.remote_peers
        (uncommitted e.logs) 0) [
          | inl nothing ↦ inl (rw (nothing))
          | inr (d, i, c, top) ↦ elim (Bool-cases (ltb 0 until)) [
            | inl some_found ↦ rw (some_found) (elim done.2 [
              | inl under ↦ inr (d, i, c, omega (arith, top))
              | inr same ↦ inl same
            ])
            | inr none_found ↦ rw (none_found) (inl refl)
          ]
        ]
