-- ===== src/Tests/MessageRuns.antt =====
-- Runs of the theorems on messages, chunks and requests.
use hamok_ts.Prelude.{
  ℕ, ℕ_discrete, string_discrete, zero, suc, ◌<◌, String, ◌≡◌, refl, inl, inr, true, false, none,
  some, List, [], ◌∷◌, arith, if◌then◌else◌, is_some, number_key, string_key, pos,
}
use hamok_ts.JsMap.{member, keys, values, set}
use hamok_ts.Message.{HamokMessage, Bytes, empty_message}
use hamok_ts.Messages.Decoding.{decoded}
use hamok_ts.Messages.HamokCodec.{HamokCodec, StorageCodec}
use hamok_ts.Messages.StorageCodec.{Input, encode, decode, remove_notification}
use hamok_ts.Messages.StorageCodec.RoundTrip.{as_sent, decode-encode}
use hamok_ts.Messages.GridCodec.{GridInput, encode_grid, decode_grid, endpoint_states}
use hamok_ts.Messages.GridCodec.RoundTrip.{arrives_as, decode_grid-encode_grid}
use hamok_ts.Requests.ResponseChunker.{apply}
use hamok_ts.Requests.ResponseChunker.Ending.{apply_ends, apply_never_ends}
use hamok_ts.Requests.PendingResponse.{accept_all, create}
use hamok_ts.Requests.PendingResponse.Reassembly.{picked, accept_all-apply, IsOrder}
use hamok_ts.Requests.PendingRequest.{
  resolved, PendingRequest, PendingRequestConfig, create_request, completed, accept_response,
  resolved_with,
}
use hamok_ts.Requests.PendingRequest.Settling.{
  RequestEvent, on_events, settled_stays, accept_response-promise, all_in, refreshed, rejection,
}
use hamok_ts.Tests.Texts.{text_codec, text_codec-decodes}

abbrev first_number : Bytes → ℕ
first_number [] = 0
first_number (n ∷ ns) = n

abbrev number_codec : HamokCodec ℕ Bytes
number_codec = record { encode = λ n. n ∷ []; decode = first_number }

numbers_decode : (n : ℕ) → number_codec.decode (number_codec.encode n) ≡ n
numbers_decode n = refl

unfoldable pub storage_codec : StorageCodec ℕ ℕ
storage_codec = record {
  key_codec = number_codec;
  value_codec = number_codec;
  str_codec = text_codec;
}

abbrev a_removal : Input ℕ ℕ
a_removal =
    remove_notification
      (record { keys = 3 ∷ 4 ∷ []; source_endpoint_id = some "a"; destination_endpoint_id = none })

decode-encode_example :
    decode storage_codec (encode {E = ℕ} storage_codec a_removal) ≡ decoded (as_sent a_removal)
unfolding storage_codec member ℕ_discrete
decode-encode_example =
    decode-encode storage_codec numbers_decode numbers_decode text_codec-decodes ℕ a_removal
      (refl, (refl, tt))

abbrev a_state : GridInput (HamokMessage ℕ)
a_state = endpoint_states (record {
  source_endpoint_id = "a";
  destination_endpoint_id = "b";
  term = 2;
  commit_index = pos 4;
  leader_next_index = pos 7;
  number_of_logs = 3;
  active_endpoint_ids = some ("a" ∷ "b" ∷ []);
  snapshot = some "";
  request_id = none;
})

decode_grid-encode_grid_example :
    decode_grid text_codec (encode_grid text_codec a_state) ≡ decoded (arrives_as a_state)
unfolding member string_discrete
decode_grid-encode_grid_example =
    decode_grid-encode_grid text_codec text_codec-decodes a_state (refl, (refl, tt))

-- A response with three entries, in two chunks.
abbrev three_keys : List Bytes
three_keys = (1 ∷ []) ∷ (2 ∷ []) ∷ (3 ∷ []) ∷ []

abbrev a_response : HamokMessage ℕ
a_response = record (empty_message) {
  request_id = some "r";
  source_id = some "b";
  keys = three_keys;
  values = three_keys;
}

abbrev two_chunks : List (HamokMessage ℕ)
two_chunks =
    record a_response {
      keys = (1 ∷ []) ∷ (2 ∷ []) ∷ [];
      values = (1 ∷ []) ∷ (2 ∷ []) ∷ [];
      sequence = some 0;
      last_message = some false;
    }
    ∷ record a_response {
      keys = (3 ∷ []) ∷ [];
      values = (3 ∷ []) ∷ [];
      sequence = some 1;
      last_message = some true;
    }
    ∷ []

abbrev reversed : List ℕ
reversed = 1 ∷ 0 ∷ []

reversed-IsOrder : IsOrder 2 reversed
unfolding member ℕ_discrete
reversed-IsOrder = ((refl, (refl, tt)), (omega arith, (omega arith, tt)), refl, each)
  where
    each : (i : ℕ) → i < 2 → member i reversed ≡ true
    each zero h = refl
    each (suc zero) h = refl
    each (suc (suc i)) h = absurd (omega arith)

two_chunks_applied : apply 3 2 2 a_response ≡ some two_chunks
unfolding apply
two_chunks_applied = refl

accept_all-apply_example :
    (accept_all (picked two_chunks reversed) (create "b" "r")).result
    ≡ some (record a_response { sequence = none; last_message = none })
accept_all-apply_example =
    accept_all-apply 3 2 2 a_response two_chunks reversed "b" "r" (inr refl) two_chunks_applied
      (omega arith) reversed-IsOrder

apply_ends_example : is_some (apply 3 2 2 a_response) ≡ true
apply_ends_example = apply_ends 2 2 a_response (inl (omega arith, omega arith))

apply_never_ends_example : apply 100 2 0 a_response ≡ none
apply_never_ends_example =
    apply_never_ends 100 2 0 a_response (omega arith) (omega arith) (omega arith) (omega arith)

abbrev request_config : PendingRequestConfig
request_config = record {
  request_id = "r";
  timeout_in_ms = some 100;
  needed_responses = none;
  remote_peers = some ("b" ∷ "c" ∷ []);
  storage_id = none;
}

abbrev two_peers : List String
two_peers = "b" ∷ "c" ∷ []

unfoldable waiting_request : PendingRequest ℕ
unfolding create_request
waiting_request = create_request request_config

accept_response-promise_example : (accept_response a_response waiting_request).promise ≡ (
    if all_in two_peers (keys (set "b" a_response waiting_request.responses))
    then some (resolved_with (values (set "b" a_response waiting_request.responses)))
    else waiting_request.promise)
unfolding waiting_request member string_discrete
accept_response-promise_example =
    accept_response-promise waiting_request a_response two_peers "b" "r" refl refl refl
      (refl, (refl, tt)) tt refl refl

abbrev later_events : List (RequestEvent ℕ)
later_events = refreshed ∷ rejection "closed" ∷ []

abbrev resolved_request : PendingRequest ℕ
resolved_request = record waiting_request { state = resolved; promise = some (resolved_with []) }

settled_stays_example :
    ((on_events later_events resolved_request).state ≡ resolved_request.state)
    × ((on_events later_events resolved_request).promise ≡ resolved_request.promise)
unfolding completed
settled_stays_example = settled_stays later_events resolved_request refl
