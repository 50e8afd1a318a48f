-- ===== src/Messages/HamokCodec.antt =====
-- src/common/HamokCodec.ts: the codecs that a storage is given, and the arrays of encoded keys and
-- values. The codecs of a StorageCodec are parameters: those of keys and values come from the user
-- of the storage, that of strings is the platform's UTF-8.
pub mod Laws
use hamok_ts.Prelude.{Option, none, some, List, [], ◌∷◌, Key, String, ite, string_discrete}
use hamok_ts.Message.{Bytes}
use hamok_ts.JsMap.{JsMap, set, add}

pub record HamokCodec (U R : Type 0) : Type 0 where
  pub encode : U → R
  pub decode : R → U

-- `FacadedHamokCodec.then`.
unfoldable pub then_codec : {A B C : Type 0} → HamokCodec A B → HamokCodec B C → HamokCodec A C
then_codec first next = record {
  encode = λ a. next.encode (first.encode a);
  decode = λ c. first.decode (next.decode c);
}

pub record StorageCodec (K V : Type 0) : Type 0 where
  pub key_codec : HamokCodec K Bytes
  pub value_codec : HamokCodec V Bytes
  pub str_codec : HamokCodec String Bytes

unfoldable pub encode_collection : {K : Type 0} → List K → HamokCodec K Bytes → List Bytes
encode_collection [] codec = []
encode_collection (k ∷ keys) codec = codec.encode k ∷ encode_collection keys codec

unfoldable pub decode_collection : {K : Type 0} → List Bytes → HamokCodec K Bytes → List K
decode_collection [] codec = []
decode_collection (b ∷ keys) codec = codec.decode b ∷ decode_collection keys codec

unfoldable pub encode_set : {K : Type 0} → List K → HamokCodec K Bytes → List Bytes
unfolding encode_collection
encode_set [] codec = []
encode_set (k ∷ keys) codec = encode_collection (k ∷ keys) codec

-- The two arrays grow together.
unfoldable pub encode_map :
    {K V : Type 0} → JsMap K V → HamokCodec K Bytes → HamokCodec V Bytes → List Bytes × List Bytes
encode_map [] key_codec value_codec = ([], [])
encode_map ((k, v) ∷ entries) key_codec value_codec =
    let rest = encode_map entries key_codec value_codec in
    (key_codec.encode k ∷ rest.0, value_codec.encode v ∷ rest.1)

module _ {K : Type 0} ⦃key : Key K⦄ where
  -- `new Set(keys)`.
  unfoldable pub add_all : List K → List K → List K
  add_all [] result = result
  add_all (k ∷ keys) result = add_all keys (add k result)

  unfoldable pub decode_set : List Bytes → HamokCodec K Bytes → List K
  unfolding add_all
  decode_set [] codec = []
  decode_set (b ∷ keys) codec = add_all (decode_collection (b ∷ keys) codec) []

module _ {K V : Type 0} ⦃key : Key K⦄ where
  -- The loop of decodeMap up to the shorter length.
  unfoldable pub decode_loop :
      List Bytes → List Bytes → HamokCodec K Bytes → HamokCodec V Bytes → JsMap K V → JsMap K V
  decode_loop (b ∷ keys) (c ∷ values) key_codec value_codec result =
      decode_loop keys values key_codec value_codec
        (set (key_codec.decode b) (value_codec.decode c) result)
  decode_loop _ _ key_codec value_codec result = result

  unfoldable pub decode_map :
      List Bytes → List Bytes → HamokCodec K Bytes → HamokCodec V Bytes → JsMap K V
  unfolding decode_loop
  decode_map [] values key_codec value_codec = []
  decode_map (b ∷ keys) [] key_codec value_codec = []
  decode_map (b ∷ keys) (c ∷ values) key_codec value_codec =
      decode_loop (b ∷ keys) (c ∷ values) key_codec value_codec []

  -- The methods of StorageCodec that encode with its codecs.
  unfoldable pub encode_keys : StorageCodec K V → List K → List Bytes
  unfolding encode_set
  encode_keys codec keys = encode_set keys codec.key_codec

  unfoldable pub decode_keys : StorageCodec K V → List Bytes → List K
  unfolding decode_set
  decode_keys codec keys = decode_set keys codec.key_codec

  unfoldable pub encode_entries : StorageCodec K V → JsMap K V → List Bytes × List Bytes
  unfolding encode_map
  encode_entries codec entries = encode_map entries codec.key_codec codec.value_codec

  unfoldable pub decode_entries : StorageCodec K V → List Bytes → List Bytes → JsMap K V
  unfolding decode_map
  decode_entries codec keys values = decode_map keys values codec.key_codec codec.value_codec

-- `snapshot ? encode(snapshot) : undefined`: the empty string counts as false.
unfoldable pub encode_snapshot : HamokCodec String Bytes → Option String → Option Bytes
encode_snapshot codec none = none
encode_snapshot codec (some s) = ite (string_discrete s "") none (some (codec.encode s))
