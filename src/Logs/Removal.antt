-- ===== src/Logs/Removal.antt =====
-- What `removeUntil` of src/raft/MemoryStoredRaftLogs.ts removes.
use hamok_ts.Prelude.{
  ℕ, zero, suc, ◌+◌, ◌-◌, ◌≤◌, ◌<◌, ◌≡◌, refl, none, ◌&&◌, arith, number_key, Option-cases,
  Bool-cases, inl, inr, leb, ltb, if◌then◌else◌,
}
use hamok_ts.JsMap
use hamok_ts.JsMap.Laws.{get-delete}
use hamok_ts.Logs.{RaftLogs}
use hamok_ts.Logs.Purge.{drop_entry, remove_loop, remove_until}
use hamok_ts.Logs.Invariant.{IsValid, drop_entry-IsValid, refirst-IsValid}

module _ {E : Type 0} where
  remove_loop-IsValid :
      (n index : ℕ) (s : RaftLogs E)
      → IsValid s
      → index + n ≤ s.committed
      → IsValid (remove_loop n index s).0
  unfolding remove_loop
  remove_loop-IsValid zero index s v h = v
  remove_loop-IsValid (suc n) index s v h = elim (Option-cases (JsMap.get index s.entries)) [
    | inl e ↦
        rw (e, remove_loop)
          (remove_loop-IsValid n (suc index) _ (refirst-IsValid (suc index) s (omega arith) v)
            (omega arith))
    | inr (d, e) ↦
        rw (e, remove_loop)
          (remove_loop-IsValid n (suc index) _ (drop_entry-IsValid index d s e v) (omega arith))
  ]

  pub remove_loop-committed :
      (n index : ℕ) (s : RaftLogs E)
      → ((remove_loop n index s).0.committed ≡ s.committed)
        × ((remove_loop n index s).0.next_index ≡ s.next_index)
  unfolding remove_loop
  remove_loop-committed zero index s = (refl, refl)
  remove_loop-committed (suc n) index s = elim (Option-cases (JsMap.get index s.entries)) [
    | inl e ↦
        rw (e, remove_loop)
          (remove_loop-committed n (suc index) (record s { first_index = suc index }))
    | inr (d, e) ↦ rw (e, remove_loop) (remove_loop-committed n (suc index) (drop_entry index d s))
  ]

  get-remove_loop :
      (n index j : ℕ) (s : RaftLogs E)
      → JsMap.get j (remove_loop n index s).0.entries
        ≡ (if leb index j && ltb j (index + n) then none else JsMap.get j s.entries)
  unfolding remove_loop
  get-remove_loop zero index j s = ground arith
  get-remove_loop (suc n) index j s = elim (Option-cases (JsMap.get index s.entries)) [
    | inl e ↦
        rw (e, remove_loop)
          (ground (arith, get-remove_loop n (suc index) j (record s { first_index = suc index })))
    | inr (d, e) ↦
        rw (e, remove_loop)
          (ground (
            arith,
            get-remove_loop n (suc index) j (drop_entry index d s),
            get-delete index j s.entries,
          ))
  ]

  -- `removeUntil` keeps the log well formed.
  pub remove_until-IsValid :
      (first : ℕ) (s : RaftLogs E) → IsValid s → IsValid (remove_until first s).0
  unfolding remove_until
  remove_until-IsValid first s v = elim (Bool-cases (leb first s.first_index)) [
    | inl old ↦ rw (old) v
    | inr above ↦ rw (above) (elim (Bool-cases (leb s.committed (suc first))) [
      | inl beyond ↦ rw (beyond) v
      | inr below ↦ rw (below) (
          refirst-IsValid first _
            (ground
              (arith, remove_loop-committed (s.committed - suc s.first_index) s.first_index s))
            (remove_loop-IsValid _ s.first_index s v (ground arith)))
    ])
  ]

  -- Between the first index and the commit index, removeUntil to an index in between removes every
  -- entry from the first index up to below the commit index, also those that stand at the
  -- requested index and above it; all else stays.
  pub get-remove_until :
      (first j : ℕ) (s : RaftLogs E)
      → s.first_index < first
      → suc first < s.committed
      → JsMap.get j (remove_until first s).0.entries
        ≡ (if leb s.first_index j && ltb (suc j) s.committed then none else JsMap.get j s.entries)
  unfolding remove_until
  get-remove_until first j s h k =
      ground (arith, get-remove_loop (s.committed - suc s.first_index) s.first_index j s)
