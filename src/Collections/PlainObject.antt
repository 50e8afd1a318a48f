-- ===== src/Collections/PlainObject.antt =====
-- The plain objects of JavaScript, such as `_object` of src/collections/HamokRecord.ts: the properties
-- of their own and those that they inherit. Under the key __proto__ stands the prototype, if it was
-- ever assigned.
pub mod Ordinary
use hamok_ts.Prelude.{string_discrete, String, ite, Option, string_key, first_some}
use hamok_ts.JsMap.{JsMap, get, set, delete}

-- What an object inherits under a key from a prototype, none standing for Object.prototype: a value
-- under toString, constructor and the like. `assign_proto` is an assignment to __proto__.
pub record Prototypes (P : Type 0) : Type 0 where
  pub inherited : Option P → String → Option P
  pub assign_proto : P → JsMap String P → JsMap String P

abbrev pub proto_key : String
proto_key = "__proto__"

module _ {P : Type 0} (prototypes : Prototypes P) where
  -- `object[key]`.
  unfoldable pub read : String → JsMap String P → Option P
  read k object = first_some (get k object) (prototypes.inherited (get proto_key object) k)

  -- `object[key] = value`.
  unfoldable pub assign : String → P → JsMap String P → JsMap String P
  assign k v object =
      ite (string_discrete k proto_key) (prototypes.assign_proto v object) (set k v object)

-- `delete object[key]`.
unfoldable pub remove : {P : Type 0} → String → JsMap String P → JsMap String P
remove k object = ite (string_discrete k proto_key) object (delete k object)
