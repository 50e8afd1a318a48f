-- ===== src/Requests/ResponseChunker.antt =====
-- src/messages/ResponseChunker.ts: a response with many keys goes out in chunks. The chunks come from
-- a generator: `none` says that it has not ended after so many rounds of its loop.
pub mod Chunks
pub mod Ending
use hamok_ts.Prelude.{
  ℕ, zero, suc, ◌+◌, ◌-◌, min, max, Option, none, some, List, [], ◌∷◌, length, take, drop, ltb, leb,
  ◌==◌, if◌then◌else◌, ◌&&◌,
}
use hamok_ts.Message.{HamokMessage}

-- `slice(start, end)`.
abbrev pub slice : {A : Type 0} → ℕ → ℕ → List A → List A
slice start end xs = take (end - start) (drop start xs)

-- The message is yielded before the rest.
abbrev pub yielded : {A : Type 0} → A → Option (List A) → Option (List A)
yielded a none = none
yielded a (some rest) = some (a ∷ rest)

module _ {E : Type 0} where
  unfoldable pub key_chunk : HamokMessage E → ℕ → ℕ → ℕ → HamokMessage E
  key_chunk m start end sequence = record m {
    keys = slice start end m.keys;
    sequence = some sequence;
    last_message = some (length m.keys == end);
  }

  unfoldable pub entry_chunk : HamokMessage E → ℕ → ℕ → ℕ → HamokMessage E
  entry_chunk m start end sequence = record m {
    keys = slice start end m.keys;
    values = slice start end m.values;
    sequence = some sequence;
    last_message = some (length m.keys == end);
  }

  -- `_chunkByKeys` for `fuel` rounds.
  unfoldable pub chunk_by_keys :
      (fuel max_keys : ℕ) → HamokMessage E → (start sequence : ℕ) → Option (List (HamokMessage E))
  unfolding key_chunk
  chunk_by_keys zero max_keys m start sequence = if ltb start (length m.keys) then none else some []
  chunk_by_keys (suc fuel) max_keys m start sequence =
      let end = min (start + max_keys) (length m.keys) in
      let rest = chunk_by_keys fuel max_keys m end (suc sequence) in
      if ltb start (length m.keys) then yielded (key_chunk m start end sequence) rest else some []

  -- `_chunkByEntries` for `fuel` rounds.
  unfoldable pub chunk_by_entries :
      (fuel max_entries : ℕ)
      → HamokMessage E
      → (start sequence : ℕ) → Option (List (HamokMessage E))
  unfolding entry_chunk
  chunk_by_entries zero max_entries m start sequence =
      if ltb start (length m.keys) && ltb start (length m.values) then none else some []
  chunk_by_entries (suc fuel) max_entries m start sequence =
      let end = min (start + max_entries) (length m.keys) in
      let rest = chunk_by_entries fuel max_entries m end (suc sequence) in
      if ltb start (length m.keys) && ltb start (length m.values)
      then yielded (entry_chunk m start end sequence) rest
      else some []

  apply_keys : ℕ → ℕ → HamokMessage E → Option (List (HamokMessage E))
  unfolding chunk_by_keys
  apply_keys fuel max_keys m =
      if leb (length m.keys) max_keys then some (m ∷ []) else chunk_by_keys fuel max_keys m 0 0

  apply_entries : ℕ → ℕ → HamokMessage E → Option (List (HamokMessage E))
  unfolding chunk_by_entries
  apply_entries fuel max_entries m =
      if leb (max (length m.keys) (length m.values)) max_entries
      then some (m ∷ [])
      else chunk_by_entries fuel max_entries m 0 0

  apply_chunker : ℕ → ℕ → ℕ → HamokMessage E → Option (List (HamokMessage E))
  unfolding apply_keys apply_entries
  apply_chunker fuel max_keys max_entries m =
      if ltb (length m.keys) 1
      then some (m ∷ [])
      else if ltb (length m.values) 1
      then apply_keys fuel max_keys m
      else apply_entries fuel max_entries m

  -- `createResponseChunker(maxKeys, maxValues).apply(message)`.
  unfoldable pub apply :
      (fuel max_keys max_values : ℕ) → HamokMessage E → Option (List (HamokMessage E))
  unfolding apply_chunker
  apply fuel max_keys max_values m =
      if ltb max_keys 1 && ltb max_values 1
      then some (m ∷ [])
      else apply_chunker fuel max_keys (min max_keys max_values) m
