-- ===== src/Common/Sets.antt =====
-- src/common/Collections.ts: the helpers on sets.
use hamok_ts.Prelude.{
  ℕ, Bool, true, ◌&&◌, Option, none, some, List, [], ◌∷◌, ◌++◌, ltb, if◌then◌else◌, or_else, Key,
  number_key, string_key, length,
}
use hamok_ts.JsMap.{member, add}

module _ {T : Type 0} ⦃key : Key T⦄ where
  unfoldable pub put_items : List T → List T → List T
  put_items result [] = result
  put_items result (item ∷ items) = put_items (add item result) items

  unfoldable pub concat_set : List T → List (List T) → List T
  unfolding put_items
  concat_set result [] = result
  concat_set result (items ∷ rest) = concat_set (put_items result items) rest

  unfoldable pub set_of : List T → List T
  unfolding put_items
  set_of args = put_items [] args

  unfoldable pub set_from : List (List T) → List T
  unfolding concat_set
  set_from iterables = concat_set [] iterables

  -- The second part is the calls of the listener for duplicates.
  unfoldable pub reduce_items : List T → List T → List T × List T
  reduce_items result [] = (result, [])
  reduce_items result (item ∷ items) =
      let (reduced, calls) = reduce_items (add item result) items in
      (reduced, if member item result then item ∷ calls else calls)

  unfoldable pub reduce_set : List T → List (List T) → List T × List T
  unfolding reduce_items
  reduce_set result [] = (result, [])
  reduce_set result (items ∷ rest) =
      let (merged, calls) = reduce_items result items in
      let (reduced, later) = reduce_set merged rest in (reduced, calls ++ later)

  unfoldable pub has_items : List T → List T → Bool
  has_items s [] = true
  has_items s (item ∷ items) = member item s && has_items s items

  unfoldable pub equal_sets : List T → List (List T) → Bool
  unfolding has_items
  equal_sets a [] = true
  equal_sets a (b ∷ sets) = has_items b a && has_items a b && equal_sets b sets

  unfoldable pub split_items : ℕ → List T → Option (List T) → List (List T)
  split_items limit [] none = []
  split_items limit [] (some chunk) = chunk ∷ []
  split_items limit (item ∷ items) chunk =
      let filled = add item (or_else chunk []) in
      let go_on = split_items limit items (some filled) in
      let next = split_items limit items none in
      if ltb (length filled) limit then go_on else filled ∷ next

  unfoldable pub split_set : List T → ℕ → Option (List (List T)) → Option (List (List T))
  unfolding split_items
  split_set source limit default =
      if ltb limit 1 then default else some (split_items limit source none)
