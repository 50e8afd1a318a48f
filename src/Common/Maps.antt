-- ===== src/Common/Maps.antt =====
-- src/common/Collections.ts: the helpers on maps. `truthy` tells the values that JavaScript's
-- conditions take as true, and a key type for the values gives `===`.
pub mod Splitting
use hamok_ts.Prelude.{
  ℕ, ◌+◌, ite, Bool, true, false, ◌&&◌, Option, none, some, List, [], ◌∷◌, ◌++◌, ltb, if◌then◌else◌,
  or_else, Key, number_key, string_key,
}
use hamok_ts.JsMap.{JsMap, get, set, size, member}

module _ {K V : Type 0} ⦃key : Key K⦄ where
  -- The entries are put into the result, one after the other.
  unfoldable pub put_entries : JsMap K V → JsMap K V → JsMap K V
  put_entries result [] = result
  put_entries result ((k, v) ∷ entries) = put_entries (set k v result) entries

  unfoldable pub concat_maps : JsMap K V → List (JsMap K V) → JsMap K V
  unfolding put_entries
  concat_maps result [] = result
  concat_maps result (entries ∷ rest) = concat_maps (put_entries result entries) rest

  unfoldable pub map_of : List (K × V) → JsMap K V
  unfolding put_entries
  map_of args = put_entries [] args

  unfoldable pub map_from : List (List (K × V)) → JsMap K V
  unfolding put_entries concat_maps
  map_from iterables = concat_maps [] iterables

  -- The loop of splitMap over the entries that are left, with the chunk that is being filled.
  unfoldable pub split_loop : ℕ → JsMap K V → Option (JsMap K V) → List (JsMap K V)
  split_loop limit [] none = []
  split_loop limit [] (some chunk) = chunk ∷ []
  split_loop limit ((k, v) ∷ entries) chunk =
      let filled = set k v (or_else chunk []) in
      let go_on = split_loop limit entries (some filled) in
      let next = split_loop limit entries none in
      if ltb (size filled) limit then go_on else filled ∷ next

  -- `none` where it throws.
  unfoldable pub split_map : JsMap K V → ℕ → Option (List (JsMap K V)) → Option (List (JsMap K V))
  unfolding split_loop
  split_map source limit default =
      if ltb limit 1 then default else some (split_loop limit source none)

  unfoldable pub collect_entries_by_not_in_keys : JsMap K V → List K → JsMap K V → JsMap K V
  collect_entries_by_not_in_keys [] keys result = result
  collect_entries_by_not_in_keys ((k, v) ∷ entries) keys result =
      collect_entries_by_not_in_keys entries keys (if member k keys then result else set k v result)

module _ {K V : Type 0} ⦃key : Key K⦄ (truthy : V → Bool) where
  unfoldable pub collect_entries_by_keys : JsMap K V → List K → JsMap K V → JsMap K V
  collect_entries_by_keys entries [] result = result
  collect_entries_by_keys entries (k ∷ keys) result =
      collect_entries_by_keys entries keys (elim (get k entries) [
        | none ↦ result
        | some v ↦ if truthy v then set k v result else result
      ])

  -- The second part is the calls of the listener for duplicates.
  unfoldable pub reduce_entries : JsMap K V → JsMap K V → JsMap K V × List (K × V × V)
  reduce_entries result [] = (result, [])
  reduce_entries result ((k, v) ∷ entries) =
      let (reduced, calls) = reduce_entries (set k v result) entries in
      (
        reduced,
        elim (get k result) [
          | none ↦ calls
          | some w ↦ if truthy w then (k, v, w) ∷ calls else calls
        ],
      )

  unfoldable pub reduce_maps : JsMap K V → List (JsMap K V) → JsMap K V × List (K × V × V)
  unfolding reduce_entries
  reduce_maps result [] = (result, [])
  reduce_maps result (entries ∷ rest) =
      let (merged, calls) = reduce_entries result entries in
      let (reduced, later) = reduce_maps merged rest in (reduced, calls ++ later)

module _ {K V : Type 0} ⦃key : Key K⦄ ⦃value : Key V⦄ where
  -- `get(key) === value` for each entry.
  unfoldable pub has_entries : JsMap K V → JsMap K V → Bool
  has_entries m [] = true
  has_entries m ((k, v) ∷ entries) = elim (get k m) [
    | none ↦ false
    | some w ↦ ite (value.eq? w v) (has_entries m entries) false
  ]

  unfoldable pub equal_maps : JsMap K V → List (JsMap K V) → Bool
  unfolding has_entries
  equal_maps a [] = true
  equal_maps a (b ∷ maps) = has_entries b a && has_entries a b && equal_maps b maps
