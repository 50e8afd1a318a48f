-- ===== src/Collections/Connection/Replay.antt =====
-- What becomes of the entries of the log that are replayed when a connection joins while committed
-- messages wait in its buffer.
use hamok_ts.Prelude.{
  ℕ, suc, ◌≤◌, ◌≡◌, refl, sym, Bool, true, false, Option, none, some, List, [], ◌∷◌, ◌++◌, arith,
  ltb, if◌then◌else◌, or_else, Key, number_key, string_key,
}
use mathlib.Core.Path.{subst}
use hamok_ts.Collections.Connection.{
  passing, pass, applies, emits_connected, emits_disconnected, starts_join,
}
use hamok_ts.Messages.StorageCodec.{decode}
use hamok_ts.Message.{HamokMessage}
use hamok_ts.Messages.HamokCodec.{StorageCodec}
use hamok_ts.Logs.{LogEntry}
use hamok_ts.Collections.Connection.{
  decode, HamokConnection, ConnectionOutput, accept, take_message, take_buffered, finish_join,
  hold_back, replay, is_announcement, is_of, below, emits,
}
use hamok_ts.Collections.Connection.Order.{
  applied_indices, Increasing, take_buffered-IsOrdered, from_other_none, pass_none,
  Increasing-append,
}

abbrev pub HeadIs : {A : Type 0} → A → List A → Type 0
HeadIs a [] = ⊥
HeadIs a (b ∷ bs) = b ≡ a

HeadIs-append : {A : Type 0} (a : A) (bs cs : List A) → HeadIs a bs → HeadIs a (bs ++ cs)
HeadIs-append a [] cs h = absurd h
HeadIs-append a (b ∷ bs) cs h = h

applied_append :
    {K V : Type 0} (xs ys : List (ConnectionOutput K V))
    → applied_indices xs ≡ []
    → applied_indices ys ≡ []
    → applied_indices (xs ++ ys) ≡ []
applied_append [] ys h k = k
applied_append (applies i ∷ xs) ys h k = absurd cc
applied_append (emits i commit ∷ xs) ys h k = applied_append xs ys h k
applied_append (emits_connected ∷ xs) ys h k = applied_append xs ys h k
applied_append (emits_disconnected ∷ xs) ys h k = applied_append xs ys h k
applied_append (starts_join ∷ xs) ys h k = applied_append xs ys h k

quiet_append :
    {K V : Type 0} (i end : ℕ) (xs ys : List (ConnectionOutput K V))
    → applied_indices xs ≡ []
    → Increasing i end (applied_indices ys)
    → Increasing i end (applied_indices (xs ++ ys))
quiet_append i end xs ys h k = Increasing-append i i end xs ys (rw (h) (omega arith)) k

module _ {K V E : Type 0} ⦃key : Key K⦄ (codec : StorageCodec K V)
    (first : HamokMessage E × Option ℕ) where
  -- The connection still waits, with the same message at the head of its buffer, and nothing applied.
  record IsWaiting (applied : ℕ) (c : HamokConnection E) : Type 0 where
    head : HeadIs first c.buffered_messages
    same : c.applied ≡ applied
    opened : c.closed ≡ false
    waits : c.joined ≡ false

  abbrev IsQuiet : ℕ → HamokConnection E × List (ConnectionOutput K V) → Type 0
  IsQuiet applied (c, outputs) = IsWaiting applied c × (applied_indices outputs ≡ [])

  hold_back-IsQuiet :
      (b : Bool) (m : HamokMessage E) (commit : Option ℕ) (applied : ℕ) (c : HamokConnection E)
      → IsWaiting applied c
      → IsQuiet applied (hold_back codec b m commit c)
  unfolding hold_back
  hold_back-IsQuiet true m commit applied c h =
      (h, from_other_none m.source_id c.local_peer_id (emits (decode codec m) none ∷ []) refl)
  hold_back-IsQuiet false m commit applied c h = (
    record {
      head = HeadIs-append first c.buffered_messages ((m, commit) ∷ []) h.head;
      same = h.same;
      opened = h.opened;
      waits = h.waits;
    },
    refl,
  )

  accept-held :
      (m : HamokMessage E) (commit : Option ℕ) (c : HamokConnection E)
      → c.closed ≡ false
      → c.joined ≡ false
      → accept codec m commit c ≡ hold_back codec (is_announcement m.type) m commit c
  unfolding accept
  accept-held m commit c h k = rw (h, k) refl

  if-IsQuiet :
      (b : Bool) (applied : ℕ) (m : HamokMessage E) (commit : Option ℕ) (c : HamokConnection E)
      → IsWaiting applied c
      → IsQuiet applied (if b then accept codec m commit c else (c, []))
  if-IsQuiet true applied m commit c h =
      subst (IsQuiet applied) (sym (accept-held m commit c h.opened h.waits))
        (hold_back-IsQuiet (is_announcement m.type) m commit applied c h)
  if-IsQuiet false applied m commit c h = (h, refl)

  replay-IsQuiet :
      (entries : List (LogEntry E)) (applied : ℕ) (c : HamokConnection E)
      → IsWaiting applied c
      → IsQuiet applied (replay codec entries c)
  unfolding replay
  replay-IsQuiet [] applied c h = (h, refl)
  replay-IsQuiet (e ∷ entries) applied c h =
      let after =
        if is_of e.entry.storage_id c.storage_id
        then accept codec e.entry (some e.index) c
        else (c, []) in
      let later = replay codec entries after.0 in
      let (waiting, none_applied) =
        if-IsQuiet (is_of e.entry.storage_id c.storage_id) applied e.entry (some e.index) c h in
      let (still, none_later) = replay-IsQuiet entries applied after.0 waiting in
      (still, applied_append after.1 later.1 none_applied none_later)

module _ {K V E : Type 0} ⦃key : Key K⦄ (codec : StorageCodec K V) where
  head_taken :
      (m : HamokMessage E) (i : ℕ) (c : HamokConnection E)
      → c.applied ≤ i
      → c.closed ≡ false
      → c.joined ≡ true
      → (if below (some i) c.applied then (c, []) else accept codec m (some i) c) ≡ (
        record c { applied = suc i },
        applies i ∷ pass codec (passing m.type) m (some i) c.local_peer_id,
      )
  unfolding accept take_message below
  head_taken m i c l open_now joined =
      let kept : ltb (suc i) c.applied ≡ false = ground arith in
      let fresh : ltb i c.applied ≡ false = ground arith in rw (kept, open_now, joined, fresh) refl

  -- The message at the head of the buffer is applied, and what follows stands above it.
  take_head :
      (rest : List (HamokMessage E × Option ℕ)) (m : HamokMessage E) (i : ℕ) (c : HamokConnection E)
      → c.applied ≤ i
      → c.closed ≡ false
      → c.joined ≡ true
      → let after = take_buffered codec ((m, some i) ∷ rest) c in
        Increasing i after.0.applied (applied_indices after.1)
  unfolding take_buffered
  take_head rest m i c l open_now joined =
      let outputs = pass codec (passing m.type) m (some i) c.local_peer_id in
      let taken = record c { applied = suc i } in
      let later = take_buffered codec rest taken in
      let quiet : Increasing (suc i) (suc i) (applied_indices outputs) =
        rw (pass_none codec (passing m.type) m (some i) c.local_peer_id) (omega arith) in
      subst
        (λ after.
          Increasing i (take_buffered codec rest after.0).0.applied
            (applied_indices (after.1 ++ (take_buffered codec rest after.0).1)))
        (sym (head_taken m i c l open_now joined))
        (
          omega arith,
          Increasing-append (suc i) (suc i) later.0.applied outputs later.1 quiet
              (take_buffered-IsOrdered codec rest taken),
        )

  take_waiting :
      (ms : List (HamokMessage E × Option ℕ)) (m : HamokMessage E) (i : ℕ) (c : HamokConnection E)
      → HeadIs (m, some i) ms
      → c.applied ≤ i
      → c.closed ≡ false
      → c.joined ≡ true
      → let after = take_buffered codec ms c in
        Increasing i after.0.applied (applied_indices after.1)
  take_waiting [] m i c h l open_now joined = absurd h
  take_waiting (x ∷ rest) m i c h l open_now joined =
      subst
        (λ y.
          Increasing i (take_buffered codec (y ∷ rest) c).0.applied
            (applied_indices (take_buffered codec (y ∷ rest) c).1))
        (sym h) (take_head rest m i c l open_now joined)

  -- Where a message with commit index i stands at the head of the buffer of an open connection
  -- that joins with an applied index below i, no commit below i is applied: the entries of the log
  -- that are replayed come after it in the buffer, and those below i are dropped.
  pub finish_join-skips :
      (snapshot : Option ℕ) (committed : ℕ) (entries : List (LogEntry E)) (c : HamokConnection E)
      (m : HamokMessage E) (i : ℕ)
      → HeadIs (m, some i) c.buffered_messages
      → c.closed ≡ false
      → or_else snapshot c.applied ≤ i
      → let after = finish_join codec snapshot committed entries c in
        Increasing i after.0.applied (applied_indices after.1)
  unfolding finish_join
  finish_join-skips snapshot committed entries c m i h open_now l =
      let applied = or_else snapshot c.applied in
      let missing = if ltb applied committed then entries else [] in
      let start = record c { joined = false; applied = applied } in
      let replayed = replay codec missing start in
      let ready = record replayed.0 { buffered_messages = []; joined = true } in
      let taken = take_buffered codec replayed.0.buffered_messages ready in
      let (waiting, quiet) =
        replay-IsQuiet codec (m, some i) missing applied start
          (record { head = h; same = refl; opened = open_now; waits = refl }) in
      quiet_append i taken.0.applied replayed.1 taken.1 quiet (
        take_waiting replayed.0.buffered_messages m i ready waiting.head
          (omega (arith, waiting.same)) waiting.opened refl)
