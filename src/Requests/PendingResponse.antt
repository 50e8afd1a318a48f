-- ===== src/Requests/PendingResponse.antt =====
-- src/messages/PendingResponse.ts: a response that is put together from its chunks. `end_seq` is none
-- where _endSeq is -1.
pub mod Accepting
pub mod Reassembly
use hamok_ts.Prelude.{
  number_key, String, ℕ, zero, suc, Bool, Option, none, some, List, [], ◌∷◌, ◌++◌, ◌==◌,
  if◌then◌else◌,
}
use hamok_ts.Message.{HamokMessage}
use hamok_ts.JsMap.{JsMap, get, set, size, values}

pub record PendingResponse (E : Type 0) : Type 0 where
  pub source_peer_id : String
  pub request_id : String
  pub messages : JsMap ℕ (HamokMessage E)
  pub end_seq : Option ℕ
  pub result : Option (HamokMessage E)

module _ {E : Type 0} where
  unfoldable pub create : String → String → PendingResponse E
  create source_peer_id request_id = record {
    source_peer_id = source_peer_id;
    request_id = request_id;
    messages = [];
    end_seq = none;
    result = none;
  }

  first_storage_id : List (HamokMessage E) → Option String
  first_storage_id [] = none
  first_storage_id (m ∷ rest) = m.storage_id

  unfoldable pub storage_id : PendingResponse E → Option String
  unfolding first_storage_id
  storage_id r = first_storage_id (values r.messages)

  -- What the chunk adds to the result; a chunk that is missing is passed over.
  unfoldable pub push_chunk : Option (HamokMessage E) → HamokMessage E → HamokMessage E
  push_chunk none result = result
  push_chunk (some chunk) result = record result {
    keys = result.keys ++ chunk.keys;
    values = result.values ++ chunk.values;
  }

  -- The loop over `count` sequence numbers from `seq` on.
  unfoldable pub push_chunks :
      (count seq : ℕ) → JsMap ℕ (HamokMessage E) → HamokMessage E → HamokMessage E
  unfolding push_chunk
  push_chunks zero seq messages result = result
  push_chunks (suc count) seq messages result =
      push_chunks count (suc seq) messages (push_chunk (get seq messages) result)

  assemble : PendingResponse E → ℕ → Option (HamokMessage E) → PendingResponse E
  unfolding push_chunks
  assemble r last none = r
  assemble r last (some first) = record r {
    result =
        some
          (push_chunks last 1 r.messages (record first { sequence = none; last_message = none }));
  }

  complete : PendingResponse E → HamokMessage E → Option ℕ → PendingResponse E
  unfolding assemble
  complete r m none = r
  complete r m (some zero) = record r { messages = []; result = some m }
  complete r m (some (suc n)) =
      if size r.messages == suc (suc n) then assemble r (suc n) (get 0 r.messages) else r

  store : PendingResponse E → HamokMessage E → ℕ → Bool → PendingResponse E
  unfolding complete
  store r m sequence last =
      let end_seq = if last then some sequence else r.end_seq in
      complete (record r { messages = set sequence m r.messages; end_seq = end_seq }) m end_seq

  accept_if :
      Option (HamokMessage E)
      → Option Bool
      → Option ℕ
      → PendingResponse E
      → HamokMessage E
      → PendingResponse E
  unfolding store
  accept_if none (some last) (some sequence) r m = store r m sequence last
  accept_if _ _ _ r m = r

  unfoldable pub accept : HamokMessage E → PendingResponse E → PendingResponse E
  unfolding accept_if
  accept m r = accept_if r.result m.last_message m.sequence r m

  unfoldable pub accept_all : List (HamokMessage E) → PendingResponse E → PendingResponse E
  unfolding accept
  accept_all [] r = r
  accept_all (m ∷ rest) r = accept_all rest (accept m r)
