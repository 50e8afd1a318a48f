-- ===== src/Raft/Assembly.antt =====
-- src/raft/RaftAppendEntriesRequest.ts: a request, put together from its chunks.
pub mod InOrder
use hamok_ts.Prelude.{
  ℕ, ℤ, zero, suc, String, string_discrete, ite, Bool, true, false, Option, none, some, List, [],
  ◌∷◌, if◌then◌else◌, is_some, first_some, is_negative, minus_one, ◌==◌, ltb, number_key, ◌+◌,
}
use hamok_ts.JsMap
use hamok_ts.JsMap.{JsMap}
use hamok_ts.Message.{HamokMessage}
use hamok_ts.Raft.Messages.{RaftAppendEntriesRequestChunk}

-- `_term` and `_endSeq` are -1 until they are known, here `none`.
pub record RaftAppendEntriesRequest (E : Type 0) : Type 0 where
  pub request_id : String
  pub peer_id : Option String
  pub term : Option ℕ
  pub leader_id : Option String
  pub prev_log_index : ℤ
  pub prev_log_term : ℤ
  pub leader_commit : ℤ
  pub leader_next_index : ℤ
  pub entries : JsMap ℕ (HamokMessage E)
  pub ready : Bool
  pub end_seq : Option ℕ
  pub entries_list : List (HamokMessage E)

-- What a call of `add` leaves behind, also where it throws.
pub data Added (E : Type 0) : Type 0 where
  added : RaftAppendEntriesRequest E → Added E
  throws : RaftAppendEntriesRequest E → Added E

abbrev if_unset : ℤ → ℤ → ℤ
if_unset old new = if is_negative old then new else old

unfoldable pub is_ready : Option ℕ → ℕ → Bool → Bool
is_ready none size old = old
is_ready (some end) size old = if end == 0 then true else size == end + 1

module _ {E : Type 0} where
  abbrev pub new_request : String → RaftAppendEntriesRequest E
  new_request id = record {
    request_id = id;
    peer_id = none;
    term = none;
    leader_id = none;
    prev_log_index = minus_one;
    prev_log_term = minus_one;
    leader_commit = minus_one;
    leader_next_index = minus_one;
    entries = [];
    ready = false;
    end_seq = none;
    entries_list = [];
  }

  -- The fields that the first chunk sets.
  unfoldable pub note_header :
      RaftAppendEntriesRequestChunk E → RaftAppendEntriesRequest E → RaftAppendEntriesRequest E
  note_header c r = record r {
    peer_id = first_some r.peer_id (some c.peer_id);
    term = first_some r.term (some c.term);
    leader_id = first_some r.leader_id c.leader_id;
    prev_log_index = if_unset r.prev_log_index c.prev_log_index;
    prev_log_term = if_unset r.prev_log_term c.prev_log_term;
    leader_commit = if_unset r.leader_commit c.leader_commit;
    leader_next_index = if_unset r.leader_next_index c.leader_next_index;
  }

  -- The entries under 0, 1, … of a table, `n` places long, without those that are missing.
  unfoldable pub in_sequence : ℕ → ℕ → JsMap ℕ (HamokMessage E) → List (HamokMessage E)
  in_sequence zero index m = []
  in_sequence (suc n) index m =
      let rest = in_sequence n (suc index) m in
      elim (JsMap.get index m) [ none ↦ rest | some e ↦ e ∷ rest ]

  -- From `if (requestChunk.lastMessage)` on.
  unfoldable pub finish :
      RaftAppendEntriesRequestChunk E → RaftAppendEntriesRequest E → RaftAppendEntriesRequest E
  unfolding is_ready in_sequence
  finish c r =
      let end : Option ℕ = if c.last_message then some c.sequence else r.end_seq in
      let ready : Bool = is_ready end (JsMap.size r.entries) r.ready in
      record r {
        end_seq = end;
        ready = ready;
        entries_list =
            if ready then in_sequence (JsMap.size r.entries) 0 r.entries else r.entries_list;
      }

  unfoldable pub add_entry :
      RaftAppendEntriesRequestChunk E
      → RaftAppendEntriesRequest E
      → Option (HamokMessage E)
      → Added E
  unfolding finish
  add_entry c r none = added (finish c r)
  add_entry c r (some e) =
      let r' : RaftAppendEntriesRequest E = record r {
        entries = JsMap.set c.sequence e r.entries;
      } in
      if is_some (JsMap.get c.sequence r.entries) then throws r' else added (finish c r')

  -- `add`.
  unfoldable pub add_chunk : RaftAppendEntriesRequestChunk E → RaftAppendEntriesRequest E → Added E
  unfolding add_entry note_header
  add_chunk c r =
      ite (string_discrete c.request_id r.request_id) (add_entry c (note_header c r) c.entry)
        (throws r)
