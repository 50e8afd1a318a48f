-- ===== src/Requests/ResponseChunker/Ending.antt =====
-- When the chunking of a response ends.
use hamok_ts.Prelude.{
  arith, some, none, true, length, [], max, is_some, ◌≡◌, ◌⊎◌, List, min, ◌≤◌, ℕ,
}
use hamok_ts.Message.{HamokMessage}
use hamok_ts.Requests.ResponseChunker.{apply}
use hamok_ts.Requests.ResponseChunker.Chunks.{
  CutFrom, bound, keys_CutFrom, entries_CutFrom, keys_end, entries_end, entries_never_end,
}

module _ {E : Type 0} where
  -- The chunking of a response ends, after at most as many rounds as the response has keys, if
  -- both limits are at least 1 or both are 0.
  pub apply_ends :
      (max_keys max_values : ℕ) (m : HamokMessage E)
      → (1 ≤ max_keys × 1 ≤ max_values) ⊎ (max_keys ≡ 0 × max_values ≡ 0)
      → is_some (apply (length m.keys) max_keys max_values m) ≡ true
  unfolding apply
  apply_ends max_keys max_values m h = ground (
    arith,
    keys_end (length m.keys) max_keys m 0 0,
    entries_end (length m.keys) (min max_keys max_values) m 0 0,
  )

  -- With one limit 0 and the other at least 1, the chunking of a response that has keys and values
  -- has not ended after any number of rounds.
  pub apply_never_ends :
      (fuel max_keys max_values : ℕ) (m : HamokMessage E)
      → min max_keys max_values ≡ 0
      → 1 ≤ max max_keys max_values
      → 1 ≤ length m.keys
      → 1 ≤ length m.values
      → apply fuel max_keys max_values m ≡ none
  unfolding apply
  apply_never_ends fuel max_keys max_values m low high keys values =
      rw (low) (ground (arith, entries_never_end fuel m 0))

  -- More than one chunk comes from one of the two loops.
  pub apply-CutFrom :
      (fuel max_keys max_values : ℕ) (m : HamokMessage E) (cs : List (HamokMessage E))
      → (m.values ≡ []) ⊎ (length m.values ≡ length m.keys)
      → apply fuel max_keys max_values m ≡ some cs
      → 2 ≤ length cs
      → CutFrom m max_keys 0 cs ⊎ CutFrom m (min max_keys max_values) 0 cs
  unfolding apply
  apply-CutFrom fuel max_keys max_values m cs same h many =
      let limit = min max_keys max_values in
      let start : bound m max_keys 0 ≡ 0 = omega arith in
      let start_entries : bound m limit 0 ≡ 0 = omega arith in
      ground (arith, keys_CutFrom fuel max_keys 0 m cs, entries_CutFrom fuel limit 0 m cs)
