-- ===== src/Common/Grouping.antt =====
-- src/common/Collections.ts: groupArrayBy.
use hamok_ts.Prelude.{
  ite, Bool, true, false, Option, none, some, List, [], ◌∷◌, ◌++◌, Key, number_key, string_key, ◌≡◌,
  refl, sym, ap, ◌∙◌, arith, append_nil, append_one,
}
use hamok_ts.JsMap.Laws.{get-set}
use hamok_ts.JsMap.{JsMap, get, set}

module _ {T K : Type 0} ⦃key : Key K⦄ (get_key : T → Option K) (filter : T → Bool) where
  -- An item joins its group, or starts it.
  unfoldable pub group_item : Option (List T) → K → T → JsMap K (List T) → JsMap K (List T)
  group_item none k item result = set k (item ∷ []) result
  group_item (some items) k item result = set k (items ++ item ∷ []) result

  group_if : Bool → Option K → T → JsMap K (List T) → JsMap K (List T)
  unfolding group_item
  group_if true (some k) item result = group_item (get k result) k item result
  group_if _ _ item result = result

  unfoldable pub group_loop : List T → JsMap K (List T) → JsMap K (List T)
  unfolding group_if
  group_loop [] result = result
  group_loop (item ∷ list) result =
      group_loop list (group_if (filter item) (get_key item) item result)

  unfoldable pub group_array_by : List T → JsMap K (List T)
  unfolding group_loop
  group_array_by list = group_loop list []

  -- The items of a list that have the key and pass the filter.
  abbrev joins : Bool → Option K → K → T → List T → List T
  joins true (some j) k item rest = ite (key.eq? j k) (item ∷ rest) rest
  joins true none k item rest = rest
  joins false j k item rest = rest

  abbrev pub items_with : K → List T → List T
  items_with k [] = []
  items_with k (item ∷ list) = joins (filter item) (get_key item) k item (items_with k list)

  abbrev pub merged : Option (List T) → List T → Option (List T)
  merged none [] = none
  merged none (x ∷ xs) = some (x ∷ xs)
  merged (some ys) xs = some (ys ++ xs)

  merged_nil : (group : Option (List T)) → merged group [] ≡ group
  merged_nil none = refl
  merged_nil (some ys) = ap some (append_nil ys)

  -- One more item for the group of `j`, seen at the key `k`.
  group_item-get :
      (group : Option (List T)) (j k : K) (item : T) (result : JsMap K (List T)) (rest : List T)
      → get j result ≡ group
      → merged (get k (group_item group j item result)) rest
        ≡ merged (get k result) (ite (key.eq? j k) (item ∷ rest) rest)
  unfolding group_item
  group_item-get none j k item result rest h = ground (arith, get-set j k (item ∷ []) result)
  group_item-get (some ys) j k item result rest h =
      ground (arith, get-set j k (ys ++ item ∷ []) result, append_one ys item rest)

  group_if-get :
      (b : Bool) (j : Option K) (k : K) (item : T) (result : JsMap K (List T)) (rest : List T)
      → merged (get k (group_if b j item result)) rest
        ≡ merged (get k result) (joins b j k item rest)
  unfolding group_if
  group_if-get false j k item result rest = refl
  group_if-get true none k item result rest = refl
  group_if-get true (some j) k item result rest =
      group_item-get (get j result) j k item result rest refl

  group_loop-get :
      (k : K) (list : List T) (result : JsMap K (List T))
      → get k (group_loop list result) ≡ merged (get k result) (items_with k list)
  unfolding group_loop
  group_loop-get k [] result = sym (merged_nil (get k result))
  group_loop-get k (item ∷ list) result =
      group_loop-get k list (group_if (filter item) (get_key item) item result)
      ∙ group_if-get (filter item) (get_key item) k item result (items_with k list)

  -- groupArrayBy has for each key the list of the items that pass the filter and have that key, in
  -- the order of the list, and no entry where there is none.
  pub get-group_array_by :
      (k : K) (list : List T) → get k (group_array_by list) ≡ merged none (items_with k list)
  unfolding group_array_by get
  get-group_array_by k list = group_loop-get k list []
