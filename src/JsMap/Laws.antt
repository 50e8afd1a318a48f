-- ===== src/JsMap/Laws.antt =====
-- The laws of maps and sets.
use hamok_ts.Prelude.{
  false, ℕ, ◌+◌, ◌≡◌, refl, ite, true, Option, none, some, List, [], ◌∷◌, arith, Key, length,
  length-append, ◌++◌, Bool-cases, inl, inr, if◌then◌else◌, ◌≤◌, number_key, string_key,
}
use hamok_ts.JsMap.{Distinct, JsMap, get, set, delete, Unique, member, add}

module _ {K V : Type 0} ⦃key : Key K⦄ where
  pub get-set :
      (k j : K) (v : V) (m : JsMap K V) → get j (set k v m) ≡ ite (key.eq? k j) (some v) (get j m)
  unfolding get set
  get-set k j v [] = refl
  get-set k j v ((i, w) ∷ m) = ground (arith, get-set k j v m)

  pub get-set_self : (k : K) (v : V) (m : JsMap K V) → get k (set k v m) ≡ some v
  get-set_self k v m = ground (arith, get-set k k v m)

  pub get-delete : (k j : K) (m : JsMap K V) → get j (delete k m) ≡ ite (key.eq? k j) none (get j m)
  unfolding get delete
  get-delete k j [] = ground arith
  get-delete k j ((i, w) ∷ m) = ground (arith, get-delete k j m)

  pub set-Unique : (k : K) (v : V) (m : JsMap K V) → Unique m → Unique (set k v m)
  unfolding get set
  set-Unique k v [] u = (refl, tt)
  set-Unique k v ((i, w) ∷ m) u = ground (arith, set-Unique k v m, get-set k i v m)

  pub delete-Unique : (k : K) (m : JsMap K V) → Unique m → Unique (delete k m)
  unfolding get delete
  delete-Unique k [] u = tt
  delete-Unique k ((i, w) ∷ m) u = ground (arith, delete-Unique k m, get-delete k i m)

  pub delete_missing : (k : K) (m : JsMap K V) → get k m ≡ none → delete k m ≡ m
  unfolding get delete
  delete_missing k [] h = refl
  delete_missing k ((i, w) ∷ m) h = ground (arith, delete_missing k m)

  pub length-set :
      (k : K) (v : V) (m : JsMap K V)
      → length (set k v m) ≡ length m + (elim (get k m) [ none ↦ 1 | some w ↦ 0 ])
  unfolding get set
  length-set k v [] = refl
  length-set k v ((i, w) ∷ m) = ground (arith, length-set k v m)

-- The sum of a measure over the values.
module _ {V : Type 0} (weight : V → ℕ) where
  abbrev pub weight_of : Option V → ℕ
  weight_of none = 0
  weight_of (some v) = weight v

module _ {K V : Type 0} ⦃key : Key K⦄ (weight : V → ℕ) where
  abbrev pub total : JsMap K V → ℕ
  total [] = 0
  total ((k, v) ∷ m) = weight v + total m

  -- What was stored under the key goes, and the new value comes.
  pub total-set :
      (k : K) (v : V) (m : JsMap K V)
      → total (set k v m) + weight_of weight (get k m) ≡ total m + weight v
  unfolding get set
  total-set k v [] = omega arith
  total-set k v ((i, w) ∷ m) = ground (arith, total-set k v m)

  pub total-delete :
      (k : K) (m : JsMap K V) → Unique m → total (delete k m) + weight_of weight (get k m) ≡ total m
  unfolding get delete
  total-delete k [] u = omega arith
  total-delete k ((i, w) ∷ m) u = ground (arith, total-delete k m, delete_missing k m)

module _ {K : Type 0} ⦃key : Key K⦄ where
  pub member_last :
      (k j : K) (s : List K) → member j (s ++ k ∷ []) ≡ ite (key.eq? k j) true (member j s)
  unfolding member
  member_last k j [] = refl
  member_last k j (i ∷ s) = ground (arith, member_last k j s)

  pub member-add : (k j : K) (s : List K) → member j (add k s) ≡ ite (key.eq? k j) true (member j s)
  unfolding add
  member-add k j s = elim (Bool-cases (member k s)) [
    | inl there ↦ rw (there, add) (ground arith)
    | inr absent ↦ rw (absent, add) (member_last k j s)
  ]

  pub length-add :
      (k : K) (s : List K) → length (add k s) ≡ length s + (if member k s then 0 else 1)
  unfolding add
  length-add k s = ground (arith, length-append s (k ∷ []))

module _ {K V : Type 0} ⦃key : Key K⦄ where
  pub set_new : (k : K) (v : V) (m : JsMap K V) → get k m ≡ none → set k v m ≡ m ++ (k, v) ∷ []
  unfolding get set
  set_new k v [] h = refl
  set_new k v ((j, w) ∷ m) h = ground (arith, set_new k v m)

  get_apart : (j k : K) (v : V) (m rest : JsMap K V) → get j (m ++ (k, v) ∷ rest) ≡ none → ¬ (k ≡ j)
  unfolding get
  get_apart j k v [] rest h = ground arith
  get_apart j k v ((i, w) ∷ m) rest h = ground (arith, get_apart j k v m rest)

  pub Unique-middle :
      (m : JsMap K V) (k : K) (v : V) (rest : JsMap K V)
      → Unique (m ++ (k, v) ∷ rest)
      → get k m ≡ none
  unfolding get
  Unique-middle [] k v rest u = refl
  Unique-middle ((j, w) ∷ m) k v rest u =
      ground (arith, Unique-middle m k v rest, get_apart j k v m rest)

module _ {K : Type 0} ⦃key : Key K⦄ where
  pub add_new : (k : K) (s : List K) → member k s ≡ false → add k s ≡ s ++ k ∷ []
  unfolding add
  add_new k s h = rw (h) refl

  member_apart : (j k : K) (s rest : List K) → member j (s ++ k ∷ rest) ≡ false → ¬ (k ≡ j)
  unfolding member
  member_apart j k [] rest h = ground arith
  member_apart j k (i ∷ s) rest h = ground (arith, member_apart j k s rest)

  pub Distinct-middle :
      (s : List K) (k : K) (rest : List K) → Distinct (s ++ k ∷ rest) → member k s ≡ false
  unfolding member
  Distinct-middle [] k rest u = refl
  Distinct-middle (j ∷ s) k rest u =
      ground (arith, Distinct-middle s k rest, member_apart j k s rest)

module _ {K V : Type 0} ⦃key : Key K⦄ where
  pub length-delete : (k : K) (m : JsMap K V) → length (delete k m) ≤ length m
  unfolding delete
  length-delete k [] = omega arith
  length-delete k ((i, w) ∷ m) = ground (arith, length-delete k m)
