-- ===== src/Collections/PlainObject/Ordinary.antt =====
-- Plain objects whose prototype is Object.prototype.
use hamok_ts.Prelude.{string_discrete, String, ◌≡◌, ◌≢◌, ite, none, some, arith, string_key}
use hamok_ts.JsMap.{JsMap, get}
use hamok_ts.JsMap.Laws.{get-set, get-delete}
use hamok_ts.Collections.PlainObject.{Prototypes, read, assign, remove, proto_key}

module _ {P : Type 0} where
  -- The prototype was never assigned.
  abbrev pub IsOrdinary : JsMap String P → Type 0
  IsOrdinary object = get proto_key object ≡ none

  pub remove-IsOrdinary :
      (k : String) (object : JsMap String P) → IsOrdinary object → IsOrdinary (remove k object)
  unfolding remove
  remove-IsOrdinary k object o = ground (arith, o, get-delete k proto_key object)

module _ {P : Type 0} (prototypes : Prototypes P) where
  pub assign-IsOrdinary :
      (k : String) (v : P) (object : JsMap String P)
      → k ≢ proto_key
      → IsOrdinary object
      → IsOrdinary (assign prototypes k v object)
  unfolding assign
  assign-IsOrdinary k v object h o = ground (arith, h, o, get-set k proto_key v object)

  pub read-assign :
      (k j : String) (v : P) (object : JsMap String P)
      → k ≢ proto_key
      → read prototypes j (assign prototypes k v object)
        ≡ ite (string_discrete k j) (some v) (read prototypes j object)
  unfolding read assign
  read-assign k j v object h = ground (arith, h, get-set k j v object, get-set k proto_key v object)

  pub read-remove :
      (k j : String) (object : JsMap String P)
      → IsOrdinary object
      → read prototypes j (remove k object)
        ≡ ite (string_discrete k j) (prototypes.inherited none j) (read prototypes j object)
  unfolding read remove
  read-remove k j object o = ground (arith, o, get-delete k j object, get-delete k proto_key object)
