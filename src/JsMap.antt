-- ===== src/JsMap.antt =====
-- The `Map` and `Set` of JavaScript, which the source uses for all its tables: a list of entries
-- in the order of insertion, at most one for each key. They are part of the language.
pub mod Laws
use hamok_ts.Prelude.{
  ℕ, ◌≡◌, ite, Bool, Option, none, some, List, [], ◌∷◌, ◌++◌, map, Key, is_some, length,
  if◌then◌else◌,
}

abbrev pub JsMap : Type 0 → Type 0 → Type 0
JsMap K V = List (K × V)

abbrev pub keys : {K V : Type 0} → JsMap K V → List K
keys = map (λ e. e.0)

abbrev pub values : {K V : Type 0} → JsMap K V → List V
values = map (λ e. e.1)

abbrev pub size : {K V : Type 0} → JsMap K V → ℕ
size = length

module _ {K V : Type 0} ⦃key : Key K⦄ where
  unfoldable pub get : K → JsMap K V → Option V
  get k [] = none
  get k ((j, v) ∷ m) = ite (key.eq? j k) (some v) (get k m)

  unfoldable pub has : K → JsMap K V → Bool
  unfolding get
  has k m = is_some (get k m)

  -- A key that is there keeps its place, a new one goes last.
  unfoldable pub set : K → V → JsMap K V → JsMap K V
  set k v [] = (k, v) ∷ []
  set k v ((j, w) ∷ m) = ite (key.eq? j k) ((j, v) ∷ m) ((j, w) ∷ set k v m)

  unfoldable pub delete : K → JsMap K V → JsMap K V
  delete k [] = []
  delete k ((j, w) ∷ m) = let rest = delete k m in ite (key.eq? j k) rest ((j, w) ∷ rest)

  -- No key stands twice.
  abbrev pub Unique : JsMap K V → Type 0
  Unique [] = Unit {0}
  Unique ((k, v) ∷ m) = (get k m ≡ none) × Unique m

-- A set is the list of its elements, in the order of insertion.
module _ {K : Type 0} ⦃key : Key K⦄ where
  unfoldable pub member : K → List K → Bool
  member k [] = Bool.false
  member k (j ∷ s) = ite (key.eq? j k) Bool.true (member k s)

  unfoldable pub add : K → List K → List K
  add k s = if member k s then s else s ++ k ∷ []

  -- No element stands twice.
  abbrev pub Distinct : List K → Type 0
  Distinct [] = Unit {0}
  Distinct (k ∷ s) = (member k s ≡ Bool.false) × Distinct s
