-- ===== src/Collections/BaseMap/Batches.antt =====
-- What the batch operations of the map in memory do to every key.
use hamok_ts.Prelude.{
  ◌≡◌, refl, ite, ◌∙◌, Bool, none, some, List, [], ◌∷◌, if◌then◌else◌, Key, Bool-cases,
  Option-cases, inl, inr, first_some, is_some, arith,
}
use hamok_ts.JsMap
use hamok_ts.JsMap.{JsMap}
use hamok_ts.JsMap.Laws.{get-set, get-delete}
use hamok_ts.Collections.BaseMap.{set_all, insert_all, delete_all, remove_all, existing}

module _ {K V : Type 0} ⦃key : Key K⦄ where
  -- After setAll with entries of which no key stands twice, a key of the entries has its value of
  -- the entries, and each other key the one that it had.
  pub get-set_all :
      (entries m : JsMap K V) (j : K)
      → JsMap.Unique entries
      → JsMap.get j (set_all entries m).0 ≡ first_some (JsMap.get j entries) (JsMap.get j m)
  unfolding set_all JsMap.get
  get-set_all [] m j u = refl
  get-set_all ((k, v) ∷ entries) m j u =
      get-set_all entries (JsMap.set k v m) j u.1 ∙ ground (arith, get-set k j v m, u)

  -- deleteAll deletes the keys it is given and no other.
  pub get-delete_all :
      (ks : List K) (m : JsMap K V) (j : K)
      → JsMap.get j (delete_all ks m).0 ≡ (if JsMap.member j ks then none else JsMap.get j m)
  unfolding delete_all JsMap.member JsMap.has
  get-delete_all [] m j = refl
  get-delete_all (k ∷ ks) m j = elim (Option-cases (JsMap.get k m)) [
    | inl absent ↦ rw (absent) (ground (arith, absent, get-delete_all ks m j))
    | inr (v, there) ↦
        rw (there) (ground (arith, get-delete k j m, get-delete_all ks (JsMap.delete k m) j))
  ]

  get-nil : (j : K) → JsMap.get {K = K} {V = V} j [] ≡ none
  unfolding JsMap.get
  get-nil j = refl

  get-cons :
      (k j : K) (v : V) (m : JsMap K V)
      → JsMap.get j ((k, v) ∷ m) ≡ ite (key.eq? k j) (some v) (JsMap.get j m)
  unfolding JsMap.get
  get-cons k j v m = refl

module _ {K V : Type 0} ⦃key : Key K⦄ (truthy : V → Bool) where
  -- With entries of which no key stands twice, insertAll never changes a value that counts as
  -- true; every other key of the entries gets its value of the entries, and all else stays.
  pub get-insert_all :
      (entries m result : JsMap K V) (j : K)
      → JsMap.Unique entries
      → (JsMap.get j (insert_all truthy entries m result).0
          ≡ first_some (existing truthy j m) (first_some (JsMap.get j entries) (JsMap.get j m)))
  unfolding existing insert_all
  get-insert_all [] m result j u = ground (arith, get-nil {V = V} j)
  get-insert_all ((k, v) ∷ entries) m result j u =
      let here = get-cons k j v entries in
      let fresh = get-insert_all entries (JsMap.set k v m) result j u.1 in
      elim (Option-cases (JsMap.get k m)) [
        | inl absent ↦
            rw (absent, insert_all) (ground (arith, absent, get-set k j v m, u, fresh, here))
        | inr (old, there) ↦ elim (Bool-cases (truthy old)) [
          | inl good ↦
              let kept = get-insert_all entries m (JsMap.set k old result) j u.1 in
              rw (there, good, insert_all) (ground (arith, there, good, u, kept, here))
          | inr falsy ↦
              rw (there, falsy, insert_all)
                (ground (arith, there, falsy, get-set k j v m, u, fresh, here))
        ]
      ]

  -- removeAll removes the keys whose values count as true and keeps all others.
  pub get-remove_all :
      (ks : List K) (m : JsMap K V) (j : K)
      → JsMap.get j (remove_all truthy ks m).0 ≡ (
          if JsMap.member j ks
          then (if is_some (existing truthy j m) then none else JsMap.get j m)
          else JsMap.get j m)
  unfolding remove_all existing JsMap.member
  get-remove_all [] m j = refl
  get-remove_all (k ∷ ks) m j = elim (Option-cases (existing truthy k m)) [
    | inl absent ↦ rw (absent) (ground (arith, absent, get-remove_all ks m j))
    | inr (v, there) ↦
        rw (there) (ground (arith, there, get-delete k j m, get-remove_all ks (JsMap.delete k m) j))
  ]
