-- ===== src/Logs/Invariant.antt =====
-- The well-formedness of a log, which every operation keeps.
use hamok_ts.Prelude.{
  ℕ, suc, ◌+◌, ◌-◌, ◌≤◌, ◌<◌, ◌≡◌, refl, ap, Option, none, some, arith, number_key, Option-cases,
  Bool-cases, inl, inr, leb, ◌==◌,
}
use hamok_ts.JsMap
use hamok_ts.JsMap.{Unique}
use hamok_ts.JsMap.Laws.{
  weight_of, total, get-set, get-delete, set-Unique, delete-Unique, total-set, total-delete,
}
use hamok_ts.Message.{HamokMessage, weight}
use hamok_ts.Logs.{
  RaftLogs, LogEntry, LogsConfig, create, submit, compare_and_override, compare_and_add, reset,
  new_entry, override_at, override_below, override_below_at,
}
use hamok_ts.Logs.Purge.{drop_entry}

module _ {E : Type 0} where
  abbrev pub entry_weight : LogEntry E → ℕ
  entry_weight e = weight e.entry

  -- Every entry stands under its own index, below `nextIndex`, and may stand under a negative one; the
  -- memory estimate is the sum over all entries; what is committed was added, and what is purged was committed.
  pub record IsValid (s : RaftLogs E) : Type 0 where
    pub unique : Unique s.entries
    pub placed :
        (i : ℕ) (e : LogEntry E)
        → JsMap.get i s.entries ≡ some e
        → (e.index ≡ i) × (i < s.next_index)
    pub below_unique : Unique s.below
    pub below_placed : (n : ℕ) (e : LogEntry E) → JsMap.get n s.below ≡ some e → e.index ≡ n
    pub counted : s.bytes_in_memory ≡ total entry_weight s.entries + total entry_weight s.below
    pub committed_le : s.committed ≤ s.next_index
    pub first_le : s.first_index ≤ s.committed

  pub create-IsValid : (c : LogsConfig) → IsValid (create c)
  unfolding JsMap.get
  create-IsValid c = record {
    unique = tt;
    placed = λ i e h. cc;
    below_unique = tt;
    below_placed = λ n e h. cc;
    counted = refl;
    committed_le = omega arith;
    first_le = omega arith;
  }

  -- The state after an entry is written at `i`, with the old one's bytes taken off.
  pub written : ℕ → ℕ → ℕ → LogEntry E → RaftLogs E → RaftLogs E
  written i next bytes e s = record s {
    entries = JsMap.set i e s.entries;
    next_index = next;
    bytes_in_memory = bytes;
  }

  written-IsValid :
      (i next bytes : ℕ) (e : LogEntry E) (s : RaftLogs E)
      → e.index ≡ i
      → i < next
      → s.next_index ≤ next
      → bytes + weight_of entry_weight (JsMap.get i s.entries) ≡ s.bytes_in_memory + entry_weight e
      → IsValid s
      → IsValid (written i next bytes e s)
  unfolding written
  written-IsValid i next bytes e s here inside grows paid v = record {
    unique = set-Unique i e s.entries v.unique;
    placed = λ j d h. ground (arith, get-set i j e s.entries, v.placed j d, h);
    below_unique = v.below_unique;
    below_placed = v.below_placed;
    counted = omega (arith, total-set entry_weight i e s.entries, v.counted);
    committed_le = omega (arith, v.committed_le);
    first_le = v.first_le;
  }

  -- Nothing stands at `nextIndex` yet.
  pub next_free : (s : RaftLogs E) → IsValid s → JsMap.get s.next_index s.entries ≡ none
  next_free s v = elim (Option-cases (JsMap.get s.next_index s.entries)) [
    | inl e ↦ e
    | inr (d, e) ↦ absurd (omega (arith, (v.placed s.next_index d e).1))
  ]

  pub submit-IsValid :
      (now term : ℕ) (m : HamokMessage E) (s : RaftLogs E)
      → IsValid s
      → IsValid (submit now term m s).0
  unfolding submit written
  submit-IsValid now term m s v =
      written-IsValid s.next_index (suc s.next_index) (s.bytes_in_memory + weight m)
        (new_entry now s.next_index term m) s refl (omega arith) (omega arith)
        (rw (next_free s v) (omega arith)) v

  pub compare_and_add-IsValid :
      (now index term : ℕ) (m : HamokMessage E) (s : RaftLogs E)
      → IsValid s
      → IsValid (compare_and_add now index term m s).0
  unfolding compare_and_add submit
  compare_and_add-IsValid now index term m s v = elim (Bool-cases (s.next_index == index)) [
    | inl same ↦ rw (same) (submit-IsValid now term m s v)
    | inr other ↦ rw (other) v
  ]

  -- What is counted for an entry is not more than the sum.
  pub weight-le-bytes :
      (i : ℕ) (e : LogEntry E) (s : RaftLogs E)
      → IsValid s
      → JsMap.get i s.entries ≡ some e
      → entry_weight e ≤ s.bytes_in_memory
  weight-le-bytes i e s v h = omega (
    arith,
    ap (weight_of entry_weight) h,
    total-delete entry_weight i s.entries v.unique,
    v.counted,
  )

  override_at-IsValid :
      (now index term : ℕ) (m : HamokMessage E) (s : RaftLogs E) (o : Option (LogEntry E))
      → JsMap.get index s.entries ≡ o
      → index < s.next_index
      → IsValid s
      → IsValid (override_at now index term m s o).0
  unfolding override_at written
  override_at-IsValid now index term m s none h inside v =
      written-IsValid index s.next_index (s.bytes_in_memory + weight m) (new_entry now index term m)
        s refl inside (omega arith) (rw h (omega arith)) v
  override_at-IsValid now index term m s (some old) h inside v =
      elim (Bool-cases (term == old.term)) [
        | inl same ↦ rw (same) v
        | inr other ↦ rw (other) (
            written-IsValid index s.next_index (s.bytes_in_memory - weight old.entry + weight m)
              (new_entry now index term m) s refl inside (omega arith)
              (rw h (omega (arith, weight-le-bytes index old s v h))) v)
      ]

  pub compare_and_override-IsValid :
      (now index term : ℕ) (m : HamokMessage E) (s : RaftLogs E)
      → IsValid s
      → IsValid (compare_and_override now index term m s).0
  unfolding compare_and_override
  compare_and_override-IsValid now index term m s v = elim (Bool-cases (leb s.next_index index)) [
    | inl beyond ↦ rw (beyond) v
    | inr inside ↦
        rw (inside)
          (override_at-IsValid now index term m s (JsMap.get index s.entries) refl (ground arith) v)
  ]

  weight_below-le-bytes :
      (n : ℕ) (e : LogEntry E) (s : RaftLogs E)
      → IsValid s
      → JsMap.get n s.below ≡ some e
      → entry_weight e ≤ s.bytes_in_memory
  weight_below-le-bytes n e s v h = omega (
    arith,
    ap (weight_of entry_weight) h,
    total-delete entry_weight n s.below v.below_unique,
    v.counted,
  )

  -- The state after an entry is written under -(n + 1), with the old one's bytes taken off.
  written_below : ℕ → ℕ → LogEntry E → RaftLogs E → RaftLogs E
  written_below n bytes e s = record s { below = JsMap.set n e s.below; bytes_in_memory = bytes }

  written_below-IsValid :
      (n bytes : ℕ) (e : LogEntry E) (s : RaftLogs E)
      → e.index ≡ n
      → bytes + weight_of entry_weight (JsMap.get n s.below) ≡ s.bytes_in_memory + entry_weight e
      → IsValid s
      → IsValid (written_below n bytes e s)
  unfolding written_below
  written_below-IsValid n bytes e s here paid v = record {
    unique = v.unique;
    placed = v.placed;
    below_unique = set-Unique n e s.below v.below_unique;
    below_placed = λ j d h. ground (arith, get-set n j e s.below, v.below_placed j d, h);
    counted = omega (arith, total-set entry_weight n e s.below, v.counted);
    committed_le = v.committed_le;
    first_le = v.first_le;
  }

  override_below_at-IsValid :
      (now n term : ℕ) (m : HamokMessage E) (s : RaftLogs E) (o : Option (LogEntry E))
      → JsMap.get n s.below ≡ o
      → IsValid s
      → IsValid (override_below_at now n term m s o).0
  unfolding override_below_at written_below
  override_below_at-IsValid now n term m s none h v =
      written_below-IsValid n (s.bytes_in_memory + weight m) (new_entry now n term m) s refl
        (rw h (omega arith)) v
  override_below_at-IsValid now n term m s (some old) h v = elim (Bool-cases (term == old.term)) [
    | inl same ↦ rw (same) v
    | inr other ↦ rw (other) (
        written_below-IsValid n (s.bytes_in_memory - weight old.entry + weight m)
          (new_entry now n term m) s refl (rw h (omega (arith, weight_below-le-bytes n old s v h)))
          v)
  ]

  pub override_below-IsValid :
      (now n term : ℕ) (m : HamokMessage E) (s : RaftLogs E)
      → IsValid s
      → IsValid (override_below now n term m s).0
  unfolding override_below
  override_below-IsValid now n term m s v =
      override_below_at-IsValid now n term m s (JsMap.get n s.below) refl v

  pub reset-IsValid : (c : ℕ) (s : RaftLogs E) → IsValid (reset c s)
  unfolding reset JsMap.get
  reset-IsValid c s = record {
    unique = tt;
    placed = λ i e h. cc;
    below_unique = tt;
    below_placed = λ n e h. cc;
    counted = refl;
    committed_le = omega arith;
    first_le = omega arith;
  }

  -- Taking an entry out, with its bytes.
  pub drop_entry-IsValid :
      (i : ℕ) (e : LogEntry E) (s : RaftLogs E)
      → JsMap.get i s.entries ≡ some e
      → IsValid s
      → IsValid (drop_entry i e s)
  drop_entry-IsValid i e s h v = record {
    unique = delete-Unique i s.entries v.unique;
    placed = λ j d k. ground (arith, get-delete i j s.entries, v.placed j d, k);
    below_unique = v.below_unique;
    below_placed = v.below_placed;
    counted = omega (
      arith,
      ap (weight_of entry_weight) h,
      total-delete entry_weight i s.entries v.unique,
      v.counted,
    );
    committed_le = v.committed_le;
    first_le = v.first_le;
  }

  pub refirst-IsValid :
      (i : ℕ) (s : RaftLogs E)
      → i ≤ s.committed
      → IsValid s
      → IsValid (record s { first_index = i })
  refirst-IsValid i s h v = record {
    unique = v.unique;
    placed = v.placed;
    below_unique = v.below_unique;
    below_placed = v.below_placed;
    counted = v.counted;
    committed_le = v.committed_le;
    first_le = h;
  }
