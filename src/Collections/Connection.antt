-- ===== src/Collections/Connection.antt =====
-- src/collections/HamokConnection.ts: how the connection of a storage takes messages, in the order of
-- their commits, and holds them back until it has joined. `applied` is _appliedCommitIndex + 1, so that
-- it is 0 at the start. An output `applies i` marks that _appliedCommitIndex became `i`.
pub mod Order
pub mod Replay
use hamok_ts.Prelude.{
  string_discrete, ℕ, suc, ◌+◌, String, ite, Bool, true, false, Option, none, some, List, [], ◌∷◌,
  ◌++◌, ltb, if◌then◌else◌, or_else, Key, number_key, string_key,
}
use hamok_ts.Message.{
  clear_entries_notification, clear_entries_request, delete_entries_notification,
  delete_entries_request, entries_inserted_notification, entries_removed_notification,
  entry_updated_notification, get_entries_request, get_keys_request, get_size_request,
  insert_entries_notification, insert_entries_request, remove_entries_notification,
  remove_entries_request, storage_applied_commit_notification, storage_hello_notification,
  storage_state_notification, update_entries_notification, update_entries_request, HamokMessage,
  MessageType,
}
use hamok_ts.Message
use hamok_ts.Messages.Decoding.{Decoded, decoded, throws}
use hamok_ts.Messages.HamokCodec.{StorageCodec}
use hamok_ts.Messages.StorageCodec.{Input, decode}
use hamok_ts.Logs.{LogEntry}

pub record HamokConnection (E : Type 0) : Type 0 where
  pub storage_id : String
  pub local_peer_id : String
  pub closed : Bool
  pub connected : Bool
  pub joined : Bool
  pub joining : Bool
  pub applied : ℕ
  pub buffered_messages : List (HamokMessage E × Option ℕ)

pub data ConnectionOutput (K V : Type 0) : Type 0 where
  emits : Decoded (Input K V) → Option ℕ → ConnectionOutput K V
  applies : ℕ → ConnectionOutput K V
  emits_connected emits_disconnected starts_join : ConnectionOutput K V

-- How a message is passed on: as an event with its commit index, as an event alone, only if it comes
-- from another peer, or not at all.
pub data Passing : Type 0 where
  with_commit alone from_others never : Passing

-- The cases of the switch of `accept`.
unfoldable pub passing : Option MessageType → Passing
passing (some clear_entries_request) = with_commit
passing (some clear_entries_notification) = alone
passing (some get_entries_request) = alone
passing (some get_size_request) = alone
passing (some get_keys_request) = alone
passing (some delete_entries_request) = with_commit
passing (some delete_entries_notification) = alone
passing (some remove_entries_request) = with_commit
passing (some remove_entries_notification) = alone
passing (some entries_removed_notification) = alone
passing (some insert_entries_request) = with_commit
passing (some insert_entries_notification) = alone
passing (some entries_inserted_notification) = alone
passing (some update_entries_request) = with_commit
passing (some update_entries_notification) = alone
passing (some entry_updated_notification) = alone
passing (some storage_applied_commit_notification) = alone
passing (some storage_hello_notification) = from_others
passing (some storage_state_notification) = alone
passing _ = never

is_announcement : Option MessageType → Bool
is_announcement (some storage_hello_notification) = true
is_announcement (some storage_state_notification) = true
is_announcement _ = false

unfoldable pub from_other :
    {K V : Type 0}
    → Option String
    → String
    → List (ConnectionOutput K V)
    → List (ConnectionOutput K V)
from_other none local outputs = outputs
from_other (some source) local outputs = ite (string_discrete source local) [] outputs

is_of : Option String → String → Bool
is_of none id = false
is_of (some storage) id = ite (string_discrete storage id) true false

below : Option ℕ → ℕ → Bool
below none applied = false
below (some index) applied = ltb (suc index) applied

module _ {K V E : Type 0} ⦃key : Key K⦄ (codec : StorageCodec K V) where
  unfoldable pub pass : Passing → HamokMessage E → Option ℕ → String → List (ConnectionOutput K V)
  unfolding from_other
  pass with_commit m commit local = emits (decode codec m) commit ∷ []
  pass alone m commit local = emits (decode codec m) none ∷ []
  pass from_others m commit local = from_other m.source_id local (emits (decode codec m) none ∷ [])
  pass never m commit local = []

  -- Before the connection has joined: a hello or a state is passed on unless it is the local peer's
  -- own, everything else is buffered.
  hold_back :
      Bool
      → HamokMessage E
      → Option ℕ
      → HamokConnection E
      → HamokConnection E × List (ConnectionOutput K V)
  unfolding from_other
  hold_back true m commit c =
      (c, from_other m.source_id c.local_peer_id (emits (decode codec m) none ∷ []))
  hold_back false m commit c =
      (record c { buffered_messages = c.buffered_messages ++ (m, commit) ∷ [] }, [])

  take_message :
      Option ℕ
      → HamokMessage E
      → HamokConnection E
      → HamokConnection E × List (ConnectionOutput K V)
  unfolding pass passing
  take_message none m c = (c, pass (passing m.type) m none c.local_peer_id)
  take_message (some index) m c = if ltb index c.applied then (c, []) else (
    record c { applied = suc index },
    applies index ∷ pass (passing m.type) m (some index) c.local_peer_id,
  )

  unfoldable pub accept :
      HamokMessage E
      → Option ℕ
      → HamokConnection E
      → HamokConnection E × List (ConnectionOutput K V)
  unfolding hold_back take_message is_announcement
  accept m commit c =
      if c.closed
      then (c, [])
      else if c.joined
      then take_message commit m c
      else hold_back (is_announcement m.type) m commit c

  unfoldable pub accept_all :
      List (HamokMessage E × Option ℕ)
      → HamokConnection E
      → HamokConnection E × List (ConnectionOutput K V)
  unfolding accept
  accept_all [] c = (c, [])
  accept_all ((m, commit) ∷ rest) c =
      let (c', outputs) = accept m commit c in
      let (c'', later) = accept_all rest c' in (c'', outputs ++ later)

  -- The entries of the log that are replayed when the connection joins: they go to the buffer.
  unfoldable pub replay :
      List (LogEntry E) → HamokConnection E → HamokConnection E × List (ConnectionOutput K V)
  unfolding is_of accept
  replay [] c = (c, [])
  replay (e ∷ entries) c =
      let (c', outputs) =
        if is_of e.entry.storage_id c.storage_id
        then accept e.entry (some e.index) c
        else (c, []) in
      let (c'', later) = replay entries c' in (c'', outputs ++ later)

  -- The buffered messages are taken unless their commit index is below the applied one.
  unfoldable pub take_buffered :
      List (HamokMessage E × Option ℕ)
      → HamokConnection E
      → HamokConnection E × List (ConnectionOutput K V)
  unfolding below accept
  take_buffered [] c = (c, [])
  take_buffered ((m, commit) ∷ rest) c =
      let (c', outputs) = if below commit c.applied then (c, []) else accept m commit c in
      let (c'', later) = take_buffered rest c' in (c'', outputs ++ later)

  -- `_join` once the state of another peer has been fetched: `snapshot` is its applied commit index plus
  -- one, where there is one. `committed` is the commit index of the log plus one, and `entries` are the
  -- entries that the log gives from the applied commit index on, up to the committed ones.
  unfoldable pub finish_join :
      Option ℕ
      → ℕ
      → List (LogEntry E)
      → HamokConnection E
      → HamokConnection E × List (ConnectionOutput K V)
  unfolding replay take_buffered
  finish_join snapshot committed entries c =
      let applied = or_else snapshot c.applied in
      let missing = if ltb applied committed then entries else [] in
      let (c', replayed) = replay missing (record c { joined = false; applied = applied }) in
      let (c'', taken) =
        take_buffered c'.buffered_messages (record c' { buffered_messages = []; joined = true }) in
      (c'', replayed ++ taken)

  unfoldable pub leader_changed :
      Option String → HamokConnection E → HamokConnection E × List (ConnectionOutput K V)
  leader_changed none c =
      if c.connected
      then (
        record c { connected = false },
        emits_disconnected ∷ (if c.joining then [] else starts_join ∷ []),
      )
      else (c, [])
  leader_changed (some leader) c =
      if c.connected then (c, []) else (record c { connected = true }, emits_connected ∷ [])
