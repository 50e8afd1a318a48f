-- ===== src/Logs/Expiry.antt =====
-- What `_expire` of src/raft/MemoryStoredRaftLogs.ts removes.
use hamok_ts.Prelude.{
  ◌⊎◌, dec_lt, ℕ, zero, suc, ◌+◌, ◌-◌, ◌≤◌, ◌<◌, ◌≡◌, refl, ◌∙◌, Option, none, some, ◌||◌, arith,
  number_key, Option-cases, Bool-cases, inl, inr, leb, ltb,
}
use hamok_ts.JsMap
use hamok_ts.JsMap.{JsMap}
use hamok_ts.JsMap.Laws.{get-delete}
use hamok_ts.Logs.{RaftLogs, LogEntry}
use hamok_ts.Logs.Purge.{drop_entry, expire_scan, expire_loop, expire_scanned, expire}
use hamok_ts.Logs.Invariant.{IsValid, drop_entry-IsValid, refirst-IsValid}

abbrev BelowIndex : ℕ → Option ℕ → Type 0
BelowIndex k none = Unit {0}
BelowIndex k (some r) = r < k

module _ {E : Type 0} where
  scan-IsValid :
      (now n index : ℕ) (x : Option ℕ) (s : RaftLogs E)
      → IsValid s
      → n ≤ s.committed - suc index
      → BelowIndex (s.committed - 1) x
      → IsValid (expire_scan now n index x s).0
        × BelowIndex (s.committed - 1) (expire_scan now n index x s).1
        × ((expire_scan now n index x s).0.committed ≡ s.committed)
        × ((expire_scan now n index x s).0.entries ≡ s.entries)
  unfolding expire_scan
  scan-IsValid now zero index x s v h b = (v, b, refl, refl)
  scan-IsValid now (suc n) index x s v h b = elim (Option-cases (JsMap.get index s.entries)) [
    | inl e ↦
        rw (e, expire_scan)
          (scan-IsValid now n (suc index) x _ (refirst-IsValid (suc index) s (omega arith) v)
            (omega arith) b)
    | inr (d, e) ↦
        rw (e, expire_scan)
          (elim (Bool-cases (leb now (d.timestamp + s.config.expiration_time_in_ms))) [
            | inl fresh ↦ rw (fresh) (v, b, refl, refl)
            | inr old ↦
                rw (old)
                  (scan-IsValid now n (suc index) (some index) s v (omega arith) (omega arith))
          ])
  ]

  expire_loop-IsValid :
      (n index : ℕ) (s : RaftLogs E)
      → IsValid s
      → IsValid (expire_loop n index s).0 × ((expire_loop n index s).0.committed ≡ s.committed)
  unfolding expire_loop
  expire_loop-IsValid zero index s v = (v, refl)
  expire_loop-IsValid (suc n) index s v = elim (Option-cases (JsMap.get index s.entries)) [
    | inl e ↦ rw (e, expire_loop) (expire_loop-IsValid n (suc index) s v)
    | inr (d, e) ↦
        rw (e, expire_loop) (expire_loop-IsValid n (suc index) _ (drop_entry-IsValid index d s e v))
  ]

  scanned-IsValid :
      (s : RaftLogs E) (x : Option ℕ)
      → IsValid s
      → BelowIndex (s.committed - 1) x
      → IsValid (expire_scanned s x).0 × ((expire_scanned s x).0.committed ≡ s.committed)
  unfolding expire_scanned
  scanned-IsValid s none v b = (v, refl)
  scanned-IsValid s (some r) v b =
      let after = expire_loop-IsValid (r - s.first_index) s.first_index s v in
      elim (Bool-cases (leb s.next_index r || ltb r s.first_index)) [
        | inl odd ↦ rw (odd) (v, refl)
        | inr fine ↦ rw (fine) (refirst-IsValid r _ (omega (arith, after.1)) after.0, after.1)
      ]

  -- Expiring keeps the log well formed, and the commit index as it was.
  pub expire-IsValid :
      (now : ℕ) (s : RaftLogs E)
      → IsValid s
      → IsValid (expire now s).0 × ((expire now s).0.committed ≡ s.committed)
  unfolding expire
  expire-IsValid now s v =
      let scanned =
        scan-IsValid now (s.committed - suc s.first_index) s.first_index none s v (omega arith)
          tt in
      let after = scanned-IsValid _ _ scanned.0 (rw (scanned.2) scanned.1) in
      elim (Bool-cases (ltb s.config.expiration_time_in_ms 1)) [
        | inl infinite ↦ rw (infinite) (v, refl)
        | inr finite ↦ rw (finite) (after.0, after.1 ∙ scanned.2)
      ]

  get-expire_loop :
      (n index j : ℕ) (s : RaftLogs E)
      → (j < index) ⊎ (index + n ≤ j)
      → JsMap.get j (expire_loop n index s).0.entries ≡ JsMap.get j s.entries
  unfolding expire_loop
  get-expire_loop zero index j s h = refl
  get-expire_loop (suc n) index j s h = elim (Option-cases (JsMap.get index s.entries)) [
    | inl e ↦ rw (e, expire_loop) (get-expire_loop n (suc index) j s (omega arith))
    | inr (d, e) ↦
        rw (e, expire_loop)
          (get-expire_loop n (suc index) j (drop_entry index d s) (omega arith)
            ∙ ground (arith, get-delete index j s.entries))
  ]

  -- From `lo` on, every entry below `index` is older than the threshold.
  abbrev pub OldBelow : ℕ → ℕ → ℕ → RaftLogs E → Type 0
  OldBelow now lo index s =
      (j : ℕ) (d : LogEntry E)
      → JsMap.get j s.entries ≡ some d
      → lo ≤ j
      → j < index
      → d.timestamp + s.config.expiration_time_in_ms < now

  OldBelow-gap :
      (now lo index : ℕ) (s : RaftLogs E)
      → JsMap.get index s.entries ≡ none
      → OldBelow now lo index s
      → OldBelow now lo (suc index) s
  OldBelow-gap now lo index s gap old j d g from below = elim (dec_lt j index) [
    | yes p ↦ old j d g from p
    | no q ↦ absurd (let at : j ≡ index = omega arith in (cc))
  ]

  OldBelow-old :
      (now lo index : ℕ) (s : RaftLogs E) (c : LogEntry E)
      → JsMap.get index s.entries ≡ some c
      → c.timestamp + s.config.expiration_time_in_ms < now
      → OldBelow now lo index s
      → OldBelow now lo (suc index) s
  OldBelow-old now lo index s c here aged old j d g from below = elim (dec_lt j index) [
    | yes p ↦ old j d g from p
    | no q ↦ let at : j ≡ index = omega arith in let same : c ≡ d = cc in rw (← same) aged
  ]

  -- The scan ends at an index below which every entry is older than the threshold.
  scan_old :
      (now n index lo : ℕ) (x : Option ℕ) (s : RaftLogs E)
      → OldBelow now lo index s
      → ((k : ℕ) → x ≡ some k → k ≤ index)
      → (r : ℕ) → (expire_scan now n index x s).1 ≡ some r
      → OldBelow now lo r s
  unfolding expire_scan
  scan_old now zero index lo x s old low r e =
      λ j d g from below. old j d g from (omega (arith, low r e))
  scan_old now (suc n) index lo x s old low r e = elim (Option-cases (JsMap.get index s.entries)) [
    | inl gap ↦
        scan_old now n (suc index) lo x (record s { first_index = suc index })
          (OldBelow-gap now lo index s gap old) (λ k h. omega (arith, low k h)) r
          (rw (gap, expire_scan) at e)
    | inr (c, here) ↦ elim (Bool-cases (leb now (c.timestamp + s.config.expiration_time_in_ms))) [
      | inl fresh ↦ λ j d g from below.
          old j d g from (omega (arith, low r (rw (here, expire_scan, fresh) at e)))
      | inr aged ↦
          scan_old now n (suc index) lo (some index) s
            (OldBelow-old now lo index s c here (ground arith) old) (λ k h. ground arith) r
            (rw (here, expire_scan, aged) at e)
    ]
  ]

  -- An entry within the expiration time stays.
  scanned_keeps :
      (now j : ℕ) (d : LogEntry E) (s : RaftLogs E) (x : Option ℕ)
      → ((r : ℕ) → x ≡ some r → OldBelow now s.first_index r s)
      → JsMap.get j s.entries ≡ some d
      → now ≤ d.timestamp + s.config.expiration_time_in_ms
      → JsMap.get j (expire_scanned s x).0.entries ≡ some d
  unfolding expire_scanned
  scanned_keeps now j d s none old g fresh = g
  scanned_keeps now j d s (some r) old g fresh =
      elim (Bool-cases (leb s.next_index r || ltb r s.first_index)) [
        | inl odd ↦ rw (odd) g
        | inr fine ↦ rw (fine) (
            get-expire_loop (r - s.first_index) s.first_index j s (elim (dec_lt j s.first_index) [
              | yes p ↦ inl p
              | no q ↦ elim (dec_lt j r) [
                | yes p ↦ absurd (omega (arith, old r refl j d g (omega arith) p))
                | no above ↦ inr (ground arith)
              ]
            ])
            ∙ g)
      ]

  scan_frame :
      (now n index : ℕ) (x : Option ℕ) (s : RaftLogs E)
      → s.first_index ≤ index
      → ((expire_scan now n index x s).0.entries ≡ s.entries)
        × ((expire_scan now n index x s).0.config ≡ s.config)
        × (s.first_index ≤ (expire_scan now n index x s).0.first_index)
  unfolding expire_scan
  scan_frame now zero index x s h = (refl, refl, omega arith)
  scan_frame now (suc n) index x s h = elim (Option-cases (JsMap.get index s.entries)) [
    | inl gap ↦
        let rest =
          scan_frame now n (suc index) x (record s { first_index = suc index }) (omega arith) in
        rw (gap, expire_scan) (rest.0, rest.1, omega (arith, rest.2))
    | inr (c, here) ↦
        rw (here, expire_scan)
          (elim (Bool-cases (leb now (c.timestamp + s.config.expiration_time_in_ms))) [
            | inl fresh ↦ rw (fresh) (refl, refl, omega arith)
            | inr aged ↦ rw (aged) (scan_frame now n (suc index) (some index) s (omega arith))
          ])
  ]

  -- Expiring never removes an entry whose age at now is within the configured expiration time.
  pub expire-keeps_fresh :
      (now j : ℕ) (d : LogEntry E) (s : RaftLogs E)
      → JsMap.get j s.entries ≡ some d
      → now ≤ d.timestamp + s.config.expiration_time_in_ms
      → JsMap.get j (expire now s).0.entries ≡ some d
  unfolding expire
  expire-keeps_fresh now j d s g fresh =
      let n = s.committed - suc s.first_index in
      let frame = scan_frame now n s.first_index none s (omega arith) in
      elim (Bool-cases (ltb s.config.expiration_time_in_ms 1)) [
        | inl infinite ↦ rw (infinite) g
        | inr finite ↦ rw (finite) (
            scanned_keeps now j d (expire_scan now n s.first_index none s).0 _
              (λ r e i c h from below. rw (frame.1) (
                scan_old now n s.first_index s.first_index none s
                  (λ k f a b l. absurd (omega arith)) (λ k q. cc) r e i c (rw (frame.0) at h)
                  (omega (arith, frame.2)) below))
              (rw (frame.0) g) (rw (frame.1) fresh))
      ]
