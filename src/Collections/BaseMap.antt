-- ===== src/Collections/BaseMap.antt =====
-- src/collections/BaseMap.ts: the map in memory of a collection. `truthy` tells the values that
-- JavaScript's conditions take as true; a callback is the result that it is given.
pub mod Batches
use hamok_ts.Prelude.{Bool, not, Option, none, some, List, [], ◌∷◌, ◌++◌, if◌then◌else◌, Key}
use hamok_ts.JsMap
use hamok_ts.JsMap.{JsMap}

pub record BaseMapUpdateResult (K V : Type 0) : Type 0 where
  pub inserted : List (K × V)
  pub updated : List (K × V × V)

module _ {K V : Type 0} ⦃key : Key K⦄ where
  -- `set`, with the old value that its callback is given.
  unfoldable pub set : K → V → JsMap K V → JsMap K V × Option V
  set k v m = (JsMap.set k v m, JsMap.get k m)

  abbrev report : K → V → Option V → BaseMapUpdateResult K V → BaseMapUpdateResult K V
  report k v none r = record r { inserted = (k, v) ∷ r.inserted }
  report k v (some old) r = record r { updated = (k, old, v) ∷ r.updated }

  unfoldable pub set_all : JsMap K V → JsMap K V → JsMap K V × BaseMapUpdateResult K V
  unfolding set
  set_all [] m = (m, record { inserted = []; updated = [] })
  set_all ((k, v) ∷ entries) m =
      let (m', old) = set k v m in
      let (m'', result) = set_all entries m' in (m'', report k v old result)

  unfoldable pub delete_all : List K → JsMap K V → JsMap K V × List K
  delete_all [] m = (m, [])
  delete_all (k ∷ ks) m =
      let (m', deleted) = delete_all ks (if JsMap.has k m then JsMap.delete k m else m) in
      (m', if JsMap.has k m then k ∷ deleted else deleted)

module _ {K V : Type 0} ⦃key : Key K⦄ (truthy : V → Bool) where
  -- The value under the key, if the map has one that counts as true.
  unfoldable pub existing : K → JsMap K V → Option V
  existing k m = elim (JsMap.get k m) [ none ↦ none | some v ↦ if truthy v then some v else none ]

  unfoldable pub get_all : List K → JsMap K V → JsMap K V → JsMap K V
  unfolding existing
  get_all [] m result = result
  get_all (k ∷ ks) m result =
      get_all ks m (elim (existing k m) [ none ↦ result | some v ↦ JsMap.set k v result ])

  unfoldable pub insert : K → V → JsMap K V → JsMap K V × Option V
  unfolding existing
  insert k v m = elim (existing k m) [ none ↦ (JsMap.set k v m, none) | some old ↦ (m, some old) ]

  unfoldable pub insert_all : JsMap K V → JsMap K V → JsMap K V → JsMap K V × JsMap K V
  unfolding existing
  insert_all [] m result = (m, result)
  insert_all ((k, v) ∷ entries) m result =
      let m' : JsMap K V = elim (existing k m) [ none ↦ JsMap.set k v m | some old ↦ m ] in
      let result' : JsMap K V = elim (existing k m) [
        | none ↦ result
        | some old ↦ JsMap.set k old result
      ] in
      insert_all entries m' result'

  unfoldable pub remove : K → JsMap K V → JsMap K V × Option V
  unfolding existing
  remove k m = elim (existing k m) [ none ↦ (m, none) | some v ↦ (JsMap.delete k m, some v) ]

  unfoldable pub remove_all : List K → JsMap K V → JsMap K V × List (K × V)
  unfolding existing
  remove_all [] m = (m, [])
  remove_all (k ∷ ks) m =
      let m' : JsMap K V = elim (existing k m) [ none ↦ m | some v ↦ JsMap.delete k m ] in
      let (m'', removed) = remove_all ks m' in
      (m'', elim (existing k m) [ none ↦ removed | some v ↦ (k, v) ∷ removed ])
