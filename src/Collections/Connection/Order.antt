-- ===== src/Collections/Connection/Order.antt =====
-- The commits that a connection applies: each once, in increasing order.
use hamok_ts.Prelude.{
  string_discrete, ℕ, suc, ◌≤◌, String, ◌≡◌, refl, inl, inr, Bool, true, false, Option, none, some,
  List, [], ◌∷◌, ◌++◌, arith, ltb, if◌then◌else◌, Bool-cases, or_else, Key, number_key, string_key,
}
use hamok_ts.Message.{HamokMessage}
use hamok_ts.Messages.HamokCodec.{StorageCodec}
use hamok_ts.Logs.{LogEntry}
use hamok_ts.Collections.Connection.{
  is_of, below, is_announcement, decode, emits, applies, HamokConnection, ConnectionOutput, emits,
  applies, emits_connected, emits_disconnected, starts_join, with_commit, alone, from_others, never,
  Passing, accept, accept_all, take_message, take_buffered, finish_join, hold_back, pass, passing,
  from_other, replay,
}

-- The commit indices that are applied.
abbrev pub applied_indices : {K V : Type 0} → List (ConnectionOutput K V) → List ℕ
applied_indices [] = []
applied_indices (applies i ∷ outputs) = i ∷ applied_indices outputs
applied_indices (emits i commit ∷ outputs) = applied_indices outputs
applied_indices (emits_connected ∷ outputs) = applied_indices outputs
applied_indices (emits_disconnected ∷ outputs) = applied_indices outputs
applied_indices (starts_join ∷ outputs) = applied_indices outputs

-- From the first number on, each number is greater than the one before, and below the end.
abbrev pub Increasing : ℕ → ℕ → List ℕ → Type 0
Increasing start end [] = start ≤ end
Increasing start end (i ∷ is) = start ≤ i × Increasing (suc i) end is

pub Increasing-append :
    {K V : Type 0} (start middle end : ℕ) (xs ys : List (ConnectionOutput K V))
    → Increasing start middle (applied_indices xs)
    → Increasing middle end (applied_indices ys)
    → Increasing start end (applied_indices (xs ++ ys))
Increasing-append start middle end [] ys h k = weaken start middle end (applied_indices ys) h k
  where
    weaken : (a b c : ℕ) (is : List ℕ) → a ≤ b → Increasing b c is → Increasing a c is
    weaken a b c [] h k = omega arith
    weaken a b c (i ∷ is) h k = (omega arith, k.1)
Increasing-append start middle end (applies i ∷ xs) ys h k =
    (h.0, Increasing-append (suc i) middle end xs ys h.1 k)
Increasing-append start middle end (emits i commit ∷ xs) ys h k =
    Increasing-append start middle end xs ys h k
Increasing-append start middle end (emits_connected ∷ xs) ys h k =
    Increasing-append start middle end xs ys h k
Increasing-append start middle end (emits_disconnected ∷ xs) ys h k =
    Increasing-append start middle end xs ys h k
Increasing-append start middle end (starts_join ∷ xs) ys h k =
    Increasing-append start middle end xs ys h k

pub from_other_none :
    {K V : Type 0} (source : Option String) (local : String) (outputs : List (ConnectionOutput K V))
    → applied_indices outputs ≡ []
    → applied_indices (from_other source local outputs) ≡ []
unfolding from_other
from_other_none none local outputs h = h
from_other_none (some s) local outputs h = elim (string_discrete s local) [
  | yes e ↦ ground arith
  | no e ↦ ground arith
]

module _ {K V E : Type 0} ⦃key : Key K⦄ (codec : StorageCodec K V) where
  pub pass_none :
      (p : Passing) (m : HamokMessage E) (commit : Option ℕ) (local : String)
      → applied_indices (pass codec p m commit local) ≡ []
  unfolding pass
  pass_none with_commit m commit local = refl
  pass_none alone m commit local = refl
  pass_none from_others m commit local =
      from_other_none m.source_id local (emits (decode codec m) none ∷ []) refl
  pass_none never m commit local = refl

  -- The outputs apply commits from the old state's applied index on, up to that of the new one.
  abbrev pub IsOrdered :
      HamokConnection E → HamokConnection E × List (ConnectionOutput K V) → Type 0
  IsOrdered c (c', outputs) = Increasing c.applied c'.applied (applied_indices outputs)

  take_message-IsOrdered :
      (commit : Option ℕ) (m : HamokMessage E) (c : HamokConnection E)
      → IsOrdered c (take_message codec commit m c)
  unfolding take_message
  take_message-IsOrdered none m c =
      rw (pass_none (passing m.type) m none c.local_peer_id) (omega arith)
  take_message-IsOrdered (some index) m c = elim (Bool-cases (ltb index c.applied)) [
    | inl old ↦ rw (old) (omega arith)
    | inr new ↦ rw (new, pass_none (passing m.type) m (some index) c.local_peer_id) (ground arith)
  ]

  if-IsOrdered :
      (b : Bool) (c : HamokConnection E) (x y : HamokConnection E × List (ConnectionOutput K V))
      → IsOrdered c x
      → IsOrdered c y
      → IsOrdered c (if b then x else y)
  if-IsOrdered true c x y h k = h
  if-IsOrdered false c x y h k = k

  hold_back-IsOrdered :
      (b : Bool) (m : HamokMessage E) (commit : Option ℕ) (c : HamokConnection E)
      → IsOrdered c (hold_back codec b m commit c)
  unfolding hold_back
  hold_back-IsOrdered true m commit c =
      rw (from_other_none m.source_id c.local_peer_id (emits (decode codec m) none ∷ []) refl)
        (omega arith)
  hold_back-IsOrdered false m commit c = omega arith

  accept-IsOrdered :
      (m : HamokMessage E) (commit : Option ℕ) (c : HamokConnection E)
      → IsOrdered c (accept codec m commit c)
  unfolding accept
  accept-IsOrdered m commit c =
      let held = hold_back codec (is_announcement m.type) m commit c in
      let taken = take_message codec commit m c in
      if-IsOrdered c.closed c (c, []) (if c.joined then taken else held) (omega arith)
        (if-IsOrdered c.joined c taken held (take_message-IsOrdered commit m c)
          (hold_back-IsOrdered (is_announcement m.type) m commit c))

  -- Whatever messages a connection is given, with whatever commit indices: the commits that it
  -- applies have strictly increasing indices, above the index that was applied before and up to
  -- the one that is applied after.
  pub accept_all-IsOrdered :
      (ms : List (HamokMessage E × Option ℕ)) (c : HamokConnection E)
      → Increasing c.applied
          (accept_all codec ms c).0.applied
          (applied_indices (accept_all codec ms c).1)
  unfolding accept_all
  accept_all-IsOrdered [] c = omega arith
  accept_all-IsOrdered ((m, commit) ∷ rest) c =
      let after = accept codec m commit c in
      let later = accept_all codec rest after.0 in
      Increasing-append c.applied after.0.applied later.0.applied after.1 later.1
        (accept-IsOrdered m commit c) (accept_all-IsOrdered rest after.0)

  pub take_buffered-IsOrdered :
      (ms : List (HamokMessage E × Option ℕ)) (c : HamokConnection E)
      → IsOrdered c (take_buffered codec ms c)
  unfolding take_buffered
  take_buffered-IsOrdered [] c = omega arith
  take_buffered-IsOrdered ((m, commit) ∷ rest) c =
      let after = if below commit c.applied then (c, []) else accept codec m commit c in
      let later = take_buffered codec rest after.0 in
      Increasing-append c.applied after.0.applied later.0.applied after.1 later.1
        (if-IsOrdered (below commit c.applied) c (c, []) (accept codec m commit c) (omega arith)
          (accept-IsOrdered m commit c))
        (take_buffered-IsOrdered rest after.0)

  replay-IsOrdered :
      (entries : List (LogEntry E)) (c : HamokConnection E) → IsOrdered c (replay codec entries c)
  unfolding replay
  replay-IsOrdered [] c = omega arith
  replay-IsOrdered (e ∷ entries) c =
      let after =
        if is_of e.entry.storage_id c.storage_id
        then accept codec e.entry (some e.index) c
        else (c, []) in
      let later = replay codec entries after.0 in
      Increasing-append c.applied after.0.applied later.0.applied after.1 later.1
        (if-IsOrdered (is_of e.entry.storage_id c.storage_id) c
          (accept codec e.entry (some e.index) c) (c, [])
          (accept-IsOrdered e.entry (some e.index) c) (omega arith))
        (replay-IsOrdered entries after.0)

  -- From the applied index of the snapshot on.
  pub finish_join-IsOrdered :
      (snapshot : Option ℕ) (committed : ℕ) (entries : List (LogEntry E)) (c : HamokConnection E)
      → let after = finish_join codec snapshot committed entries c in
        Increasing (or_else snapshot c.applied) after.0.applied (applied_indices after.1)
  unfolding finish_join
  finish_join-IsOrdered snapshot committed entries c =
      let applied = or_else snapshot c.applied in
      let missing = if ltb applied committed then entries else [] in
      let start = record c { joined = false; applied = applied } in
      let replayed = replay codec missing start in
      let ready = record replayed.0 { buffered_messages = []; joined = true } in
      let taken = take_buffered codec replayed.0.buffered_messages ready in
      Increasing-append applied replayed.0.applied taken.0.applied replayed.1 taken.1
        (replay-IsOrdered missing start)
        (take_buffered-IsOrdered replayed.0.buffered_messages ready)
