-- ===== src/Raft/Emitter/RoundTrip.antt =====
-- The messages that `RaftMessageEmitter` sends are the ones that it receives.
use hamok_ts.Prelude.{◌≡◌, refl, Option, none, some, List, ◌∷◌}
use hamok_ts.Message.{HamokMessage}
use hamok_ts.Raft.Messages.{
  RaftAppendEntriesRequestChunk, RaftAppendEntriesResponse, RaftVoteRequest, RaftVoteResponse,
}
use hamok_ts.Raft.Node.{Event, append_request, append_response, vote_request, vote_response, timer}
use hamok_ts.Messages.Decoding.{decoded, throws}
use hamok_ts.Raft.Emitter.{
  send, receive, encode_append_request, encode_append_response, encode_vote_request,
  encode_vote_response,
}

module _ {E : Type 0} where
  encoded_vote_request :
      (r : RaftVoteRequest) → receive {E = E} (encode_vote_request r) ≡ decoded (vote_request r)
  unfolding receive encode_vote_request
  encoded_vote_request r = refl

  encoded_vote_response :
      (r : RaftVoteResponse) → receive {E = E} (encode_vote_response r) ≡ decoded (vote_response r)
  unfolding receive encode_vote_response
  encoded_vote_response r = refl

  encoded_chunk :
      (c : RaftAppendEntriesRequestChunk E) (entry : Option (HamokMessage E))
      → receive (encode_append_request (record c { entry = entry }))
        ≡ decoded (append_request (record c { entry = entry }))
  unfolding receive encode_append_request
  encoded_chunk c none = refl
  encoded_chunk c (some m) = refl

  encoded_append_response :
      (r : RaftAppendEntriesResponse)
      → receive {E = E} (encode_append_response r) ≡ decoded (append_response r)
  unfolding receive encode_append_response
  encoded_append_response r = refl

  -- Every message of Raft is received as it was sent, whatever stands in its fields.
  pub receive-send :
      (ev : Event E) (m : HamokMessage (HamokMessage E)) → send ev ≡ some m → receive m ≡ decoded ev
  unfolding send
  receive-send (vote_request r) m h = let same = encoded_vote_request r in cc
  receive-send (vote_response r) m h = let same = encoded_vote_response r in cc
  receive-send (append_request c) m h = let same = encoded_chunk c c.entry in cc
  receive-send (append_response r) m h = let same = encoded_append_response r in cc
  receive-send timer m h = absurd cc

  -- A chunk that embeds more than one message is refused, whatever its other fields hold.
  pub refuses_two_entries :
      (c : RaftAppendEntriesRequestChunk E) (first second : HamokMessage E)
      (rest : List (HamokMessage E))
      → receive (record (encode_append_request c) { embedded_messages = first ∷ second ∷ rest })
        ≡ throws
  unfolding encode_append_request receive
  refuses_two_entries c first second rest = refl
