-- ===== src/Messages/GridCodec/RoundTrip.antt =====
-- What a message of the grid is decoded to after it was encoded.
use hamok_ts.Prelude.{
  String, ◌≡◌, refl, ap, ◌∙◌, Option, none, some, [], number_key, string_key, if_defined,
}
use hamok_ts.JsMap.{Distinct}
use hamok_ts.Message.{HamokMessage, Bytes}
use hamok_ts.Messages.Decoding.{decoded, expects}
use hamok_ts.Messages.HamokCodec.{HamokCodec, encode_snapshot}
use hamok_ts.Messages.HamokCodec.Laws.{
  same_snapshot, sent_snapshot, decode_set-encode_set, add_all_new,
}
use hamok_ts.Messages.GridCodec.{
  GridInput, encode_grid, decode_grid, hello, join, endpoint_states, ongoing_requests,
  submit_request, submit_response, custom_keys, read_custom, set_to_array, array_to_set,
}

-- The message that arrives: without custom data or a snapshot that is empty, and with an empty set of
-- endpoints where none was given.
unfoldable pub arrives_as : {M : Type 0} → GridInput M → GridInput M
arrives_as (hello n) = hello (record n { custom_data = sent_snapshot n.custom_data })
arrives_as (join n) = join n
arrives_as (endpoint_states n) = endpoint_states (record n {
  active_endpoint_ids = some (set_to_array n.active_endpoint_ids);
  snapshot = sent_snapshot n.snapshot;
})
arrives_as (ongoing_requests n) = ongoing_requests n
arrives_as (submit_request r) = submit_request r
arrives_as (submit_response r) = submit_response r

-- The sets of a message have no element twice.
abbrev pub IsGridSound : {M : Type 0} → GridInput M → Type 0
IsGridSound (hello n) = Unit {0}
IsGridSound (join n) = Unit {0}
IsGridSound (endpoint_states n) = Distinct (set_to_array n.active_endpoint_ids)
IsGridSound (ongoing_requests n) = Distinct n.request_ids
IsGridSound (submit_request r) = Unit {0}
IsGridSound (submit_response r) = Unit {0}

read_custom-keys :
    (codec : HamokCodec String Bytes) (b : Option Bytes)
    → read_custom codec (custom_keys b) ≡ if_defined codec.decode b
read_custom-keys codec none = refl
read_custom-keys codec (some b) = refl

module _ {E : Type 0} (codec : HamokCodec String Bytes)
    (decodes : (s : String) → codec.decode (codec.encode s) ≡ s) where
  -- Where the codec of strings gives back what it was given, and the sets of a message have no
  -- element twice, every message of the grid is decoded as it was encoded, but that empty custom
  -- data and an empty snapshot arrive as none, and a missing set of active endpoints as the empty
  -- set.
  pub decode_grid-encode_grid :
      (i : GridInput (HamokMessage E))
      → IsGridSound i
      → decode_grid codec (encode_grid codec i) ≡ decoded (arrives_as i)
  unfolding decode_grid encode_grid expects arrives_as array_to_set
  decode_grid-encode_grid (hello n) u =
      ap (λ x. decoded (hello (record n { custom_data = x })))
        (read_custom-keys codec (encode_snapshot codec n.custom_data)
          ∙ same_snapshot codec decodes n.custom_data)
  decode_grid-encode_grid (join n) u = refl
  decode_grid-encode_grid (endpoint_states n) u =
      rw
        (
          same_snapshot codec decodes n.snapshot,
          add_all_new (set_to_array n.active_endpoint_ids) [] u,
        )
        refl
  decode_grid-encode_grid (ongoing_requests n) u =
      ap (λ x. decoded (ongoing_requests (record n { request_ids = x })))
        (decode_set-encode_set codec decodes n.request_ids u)
  decode_grid-encode_grid (submit_request r) u = refl
  decode_grid-encode_grid (submit_response r) u = refl
