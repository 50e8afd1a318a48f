-- ===== src/Requests/ResponseChunker/Chunks.antt =====
-- The chunks of a response: chunk `i` has the keys and the values from `bound m limit i` up to
-- `bound m limit (suc i)`.
use hamok_ts.Requests.ResponseChunker.{
  slice, chunk_by_keys, key_chunk, yielded, chunk_by_entries, entry_chunk,
}
use hamok_ts.Prelude.{
  refl, sym, ap, is_some, true, ◌∙◌, take_empty, ◌-◌, ◌≤◌, ℕ, zero, suc, ◌+◌, ◌<◌, min, ◌≡◌, Option,
  none, some, List, [], ◌∷◌, length, arith,
}
use hamok_ts.Message.{Bytes, HamokMessage}

abbrev pub start_of : ℕ → ℕ → ℕ
start_of limit zero = 0
start_of limit (suc i) = start_of limit i + limit

slice_none : (start end : ℕ) (xs : List Bytes) → xs ≡ [] → slice start end xs ≡ xs
slice_none zero end [] h = take_empty (end - 0)
slice_none (suc start) end [] h = take_empty (end - suc start)
slice_none start end (x ∷ xs) h = absurd cc

module _ {E : Type 0} where
  abbrev pub bound : HamokMessage E → ℕ → ℕ → ℕ
  bound m limit i = min (start_of limit i) (length m.keys)

  unfoldable pub chunk_at : HamokMessage E → ℕ → ℕ → HamokMessage E
  unfolding entry_chunk
  chunk_at m limit i = entry_chunk m (bound m limit i) (bound m limit (suc i)) i

  -- The chunks from number `i` on, up to the last key.
  abbrev pub CutFrom : HamokMessage E → ℕ → ℕ → List (HamokMessage E) → Type 0
  CutFrom m limit i [] = bound m limit i ≡ length m.keys
  CutFrom m limit i (c ∷ cs) =
      (bound m limit i < length m.keys) × (c ≡ chunk_at m limit i) × CutFrom m limit (suc i) cs

  next_bound :
      (m : HamokMessage E) (limit i : ℕ)
      → min (bound m limit i + limit) (length m.keys) ≡ bound m limit (suc i)
  next_bound m limit i = omega arith

  yielded_cons :
      (a c : HamokMessage E) (r : Option (List (HamokMessage E))) (cs : List (HamokMessage E))
      → yielded a r ≡ some (c ∷ cs)
      → (c ≡ a) × (r ≡ some cs)
  yielded_cons a c none cs h = absurd cc
  yielded_cons a c (some rest) cs h = (cc, cc)

  yielded_nil :
      (a : HamokMessage E) (r : Option (List (HamokMessage E))) → ¬ (yielded a r ≡ some [])
  yielded_nil a none h = cc
  yielded_nil a (some rest) h = cc

  pub entries_CutFrom :
      (fuel limit i : ℕ) (m : HamokMessage E) (cs : List (HamokMessage E))
      → length m.values ≡ length m.keys
      → chunk_by_entries fuel limit m (bound m limit i) i ≡ some cs
      → CutFrom m limit i cs
  unfolding chunk_by_entries chunk_at
  entries_CutFrom zero limit i m [] same h = ground arith
  entries_CutFrom zero limit i m (c ∷ cs) same h = ground arith
  entries_CutFrom (suc fuel) limit i m [] same h =
      let chunk =
        entry_chunk m (bound m limit i) (min (bound m limit i + limit) (length m.keys)) i in
      let rest =
        chunk_by_entries fuel limit m (min (bound m limit i + limit) (length m.keys)) (suc i) in
      ground (arith, yielded_nil chunk rest)
  entries_CutFrom (suc fuel) limit i m (c ∷ cs) same h =
      let chunk =
        entry_chunk m (bound m limit i) (min (bound m limit i + limit) (length m.keys)) i in
      let rest =
        chunk_by_entries fuel limit m (min (bound m limit i + limit) (length m.keys)) (suc i) in
      ground (
        arith,
        yielded_cons chunk c rest cs,
        entries_CutFrom fuel limit (suc i) m cs same,
        next_bound m limit i,
      )

  key_chunk-entry_chunk :
      (m : HamokMessage E) (start end sequence : ℕ)
      → m.values ≡ []
      → key_chunk m start end sequence ≡ entry_chunk m start end sequence
  unfolding key_chunk entry_chunk
  key_chunk-entry_chunk m start end sequence h =
      ap (λ vs. record (entry_chunk m start end sequence) { values = vs })
        (sym (slice_none start end m.values h))

  pub keys_CutFrom :
      (fuel limit i : ℕ) (m : HamokMessage E) (cs : List (HamokMessage E))
      → m.values ≡ []
      → chunk_by_keys fuel limit m (bound m limit i) i ≡ some cs
      → CutFrom m limit i cs
  unfolding chunk_by_keys chunk_at entry_chunk
  keys_CutFrom zero limit i m [] same h = ground arith
  keys_CutFrom zero limit i m (c ∷ cs) same h = ground arith
  keys_CutFrom (suc fuel) limit i m [] same h =
      let chunk = key_chunk m (bound m limit i) (min (bound m limit i + limit) (length m.keys)) i in
      let rest =
        chunk_by_keys fuel limit m (min (bound m limit i + limit) (length m.keys)) (suc i) in
      ground (arith, yielded_nil chunk rest)
  keys_CutFrom (suc fuel) limit i m (c ∷ cs) same h =
      let chunk = key_chunk m (bound m limit i) (min (bound m limit i + limit) (length m.keys)) i in
      let rest =
        chunk_by_keys fuel limit m (min (bound m limit i + limit) (length m.keys)) (suc i) in
      let both : (c ≡ chunk) × (rest ≡ some cs) = ground (arith, yielded_cons chunk c rest cs) in
      let tagged = key_chunk-entry_chunk m (bound m limit i) (bound m limit (suc i)) i same in
      let more : bound m limit i < length m.keys = ground arith in
      let next = next_bound m limit i in
      (
        more,
        both.0 ∙ (rw (next) tagged),
        keys_CutFrom fuel limit (suc i) m cs same (rw (sym next) both.1),
      )

  yielded-is_some :
      (a : HamokMessage E) (r : Option (List (HamokMessage E))) → is_some (yielded a r) ≡ is_some r
  yielded-is_some a none = refl
  yielded-is_some a (some rest) = refl

  pub keys_end :
      (fuel limit : ℕ) (m : HamokMessage E) (start i : ℕ)
      → 1 ≤ limit
      → length m.keys ≤ start + fuel
      → is_some (chunk_by_keys fuel limit m start i) ≡ true
  unfolding chunk_by_keys
  keys_end zero limit m start i h k = ground arith
  keys_end (suc fuel) limit m start i h k =
      let end = min (start + limit) (length m.keys) in
      let chunk = key_chunk m start end i in
      let rest = chunk_by_keys fuel limit m end (suc i) in
      ground (arith, yielded-is_some chunk rest, keys_end fuel limit m end (suc i))

  pub entries_end :
      (fuel limit : ℕ) (m : HamokMessage E) (start i : ℕ)
      → 1 ≤ limit
      → length m.keys ≤ start + fuel
      → is_some (chunk_by_entries fuel limit m start i) ≡ true
  unfolding chunk_by_entries
  entries_end zero limit m start i h k = ground arith
  entries_end (suc fuel) limit m start i h k =
      let end = min (start + limit) (length m.keys) in
      let chunk = entry_chunk m start end i in
      let rest = chunk_by_entries fuel limit m end (suc i) in
      ground (arith, yielded-is_some chunk rest, entries_end fuel limit m end (suc i))

  pub entries_never_end :
      (fuel : ℕ) (m : HamokMessage E) (i : ℕ)
      → 1 ≤ length m.keys
      → 1 ≤ length m.values
      → chunk_by_entries fuel 0 m 0 i ≡ none
  unfolding chunk_by_entries
  entries_never_end zero m i h k = ground arith
  entries_never_end (suc fuel) m i h k =
      let e : min (0 + 0) (length m.keys) ≡ 0 = omega arith in
      rw (e, entries_never_end fuel m (suc i) h k) (ground arith)
