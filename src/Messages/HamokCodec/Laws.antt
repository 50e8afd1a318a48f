-- ===== src/Messages/HamokCodec/Laws.antt =====
-- What the arrays of encoded keys and values are decoded to: the sets and maps that were encoded,
-- where the codecs give back what they were given.
use hamok_ts.Messages.HamokCodec.{
  encode_snapshot, encode_map, decode_map, decode_loop, encode_set, encode_collection, decode_set,
  add_all, decode_collection, HamokCodec,
}
use hamok_ts.Prelude.{
  string_discrete, append_one, append_nil, ◌≡◌, refl, sym, List, [], ◌∷◌, ◌++◌, Key, String, ite,
  Option, none, some, arith, number_key, string_key, if_defined, ◌+◌, ◌≤◌, min, length,
}
use hamok_ts.Message.{Bytes}
use hamok_ts.JsMap.Laws.{length-set, set_new, Unique-middle, add_new, Distinct-middle}
use hamok_ts.JsMap.{set, size, JsMap, Unique, Distinct}

module _ {K : Type 0} ⦃key : Key K⦄ where
  pub add_all_new : (keys s : List K) → Distinct (s ++ keys) → add_all keys s ≡ s ++ keys
  unfolding add_all
  add_all_new [] s u = sym (append_nil s)
  add_all_new (k ∷ keys) s u =
      rw
        (
          add_new k s (Distinct-middle s k keys u),
          add_all_new keys (s ++ k ∷ []) (rw (append_one s k keys) u),
        )
        (append_one s k keys)

module _ {K : Type 0} ⦃key : Key K⦄ (codec : HamokCodec K Bytes)
    (decodes : (k : K) → codec.decode (codec.encode k) ≡ k) where
  decode_collection-encode_collection :
      (keys : List K) → decode_collection (encode_collection keys codec) codec ≡ keys
  unfolding decode_collection encode_collection
  decode_collection-encode_collection [] = refl
  decode_collection-encode_collection (k ∷ keys) =
      rw (decodes, decode_collection-encode_collection keys) refl

  pub decode_set-encode_set :
      (keys : List K) → Distinct keys → decode_set (encode_set keys codec) codec ≡ keys
  unfolding decode_set encode_set encode_collection
  decode_set-encode_set [] u = refl
  decode_set-encode_set (k ∷ keys) u =
      rw (decode_collection-encode_collection (k ∷ keys)) (add_all_new (k ∷ keys) [] u)

module _ {K V : Type 0} ⦃key : Key K⦄ (key_codec : HamokCodec K Bytes)
    (value_codec : HamokCodec V Bytes)
    (keys_decode : (k : K) → key_codec.decode (key_codec.encode k) ≡ k)
    (values_decode : (v : V) → value_codec.decode (value_codec.encode v) ≡ v) where
  decode_loop_new :
      (entries result : JsMap K V)
      → Unique (result ++ entries)
      → decode_loop
          (encode_map entries key_codec value_codec).0
          (encode_map entries key_codec value_codec).1
          key_codec
          value_codec
          result
        ≡ result ++ entries
  unfolding decode_loop encode_map
  decode_loop_new [] result u = sym (append_nil result)
  decode_loop_new ((k, v) ∷ entries) result u =
      rw
        (
          keys_decode k,
          values_decode v,
          set_new k v result (Unique-middle result k v entries u),
          decode_loop_new entries (result ++ (k, v) ∷ []) (rw (append_one result (k, v) entries) u),
        )
        (append_one result (k, v) entries)

  pub decode_map-encode_map :
      (entries : JsMap K V)
      → Unique entries
      → decode_map
          (encode_map entries key_codec value_codec).0
          (encode_map entries key_codec value_codec).1
          key_codec
          value_codec
        ≡ entries
  unfolding decode_map encode_map
  decode_map-encode_map [] u = refl
  decode_map-encode_map ((k, v) ∷ entries) u = decode_loop_new ((k, v) ∷ entries) [] u

-- An empty snapshot is not sent.
abbrev pub sent_snapshot : Option String → Option String
sent_snapshot none = none
sent_snapshot (some s) = ite (string_discrete s "") none (some s)

pub same_snapshot :
    (codec : HamokCodec String Bytes)
    → ((s : String) → codec.decode (codec.encode s) ≡ s)
    → (s : Option String) → if_defined codec.decode (encode_snapshot codec s) ≡ sent_snapshot s
unfolding encode_snapshot
same_snapshot codec decodes none = refl
same_snapshot codec decodes (some s) = ground (arith, decodes s)

module _ {K V : Type 0} ⦃key : Key K⦄ (key_codec : HamokCodec K Bytes)
    (value_codec : HamokCodec V Bytes) where
  decode_loop_bound :
      (keys values : List Bytes) (result : JsMap K V)
      → length (decode_loop keys values key_codec value_codec result)
        ≤ length result + min (length keys) (length values)
  unfolding decode_loop
  decode_loop_bound [] values result = omega arith
  decode_loop_bound (k ∷ keys) [] result = omega arith
  decode_loop_bound (k ∷ keys) (v ∷ values) result = ground (
    arith,
    decode_loop_bound keys values (set (key_codec.decode k) (value_codec.decode v) result),
    length-set (key_codec.decode k) (value_codec.decode v) result,
  )

  -- A map that is decoded from an array of keys and an array of values has at most as many entries
  -- as the shorter array.
  pub size-decode_map :
      (keys values : List Bytes)
      → size (decode_map keys values key_codec value_codec) ≤ min (length keys) (length values)
  unfolding decode_map
  size-decode_map [] values = omega arith
  size-decode_map (k ∷ keys) [] = omega arith
  size-decode_map (k ∷ keys) (v ∷ values) =
      omega (arith, decode_loop_bound (k ∷ keys) (v ∷ values) [])
