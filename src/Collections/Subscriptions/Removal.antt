-- ===== src/Collections/Subscriptions/Removal.antt =====
-- What removals leave of the subscriptions of every peer.
use hamok_ts.Prelude.{
  string_discrete, String, ◌≡◌, refl, ◌∙◌, ite, false, Option, none, some, List, [], ◌∷◌, arith,
  string_key, Bool-cases, if◌then◌else◌, inl, inr,
}
use hamok_ts.JsMap.{get, delete, member, keys}
use hamok_ts.JsMap.Laws.{get-set, get-delete}
use hamok_ts.Messages.Types.Removals.{DeleteEntriesRequest, RemoveEntriesRequest}
use hamok_ts.Collections.Subscriptions.{
  Subscriptions, Peers, peer_of, remove_peer, remove_at, keep_event, remove_from_events,
  remove_peer_from_all_event,
}
use hamok_ts.Collections.Subscriptions.Handlers.{
  on_remove_subscriptions, on_delete_subscriptions, remove_peers,
}

module _ {M : Type 0} where
  peer_of-keep_event :
      (event : String) (peers : Peers M) (s : Subscriptions M) (j q : String)
      → peer_of j q (keep_event event peers s)
        ≡ ite (string_discrete event j) (get q peers) (peer_of j q s)
  unfolding peer_of keep_event get
  peer_of-keep_event event [] s j q = ground (arith, get-delete event j s)
  peer_of-keep_event event (p ∷ peers) s j q = ground (arith, get-set event j (p ∷ peers) s)

  peer_of-remove_at :
      (found : Option (Peers M)) (event p : String) (s : Subscriptions M) (j q : String)
      → get event s ≡ found
      → peer_of j q (remove_at found event p s).0
        ≡ ite
            (string_discrete event j)
            (ite (string_discrete p q) none (peer_of j q s))
            (peer_of j q s)
  unfolding remove_at peer_of
  peer_of-remove_at none event p s j q h = ground (arith, h)
  peer_of-remove_at (some peers) event p s j q h =
      ground (arith, h, peer_of-keep_event event (delete p peers) s j q, get-delete p q peers)

  peer_of-remove_peer :
      (event p : String) (s : Subscriptions M) (j q : String)
      → peer_of j q (remove_peer event p s).0
        ≡ ite
            (string_discrete event j)
            (ite (string_discrete p q) none (peer_of j q s))
            (peer_of j q s)
  unfolding remove_peer
  peer_of-remove_peer event p s j q = peer_of-remove_at (get event s) event p s j q refl

  peer_of-remove_from_events :
      (p : String) (events : List String) (s : Subscriptions M) (j q : String)
      → peer_of j q (remove_from_events p events s).0 ≡ (
          if member j events then ite (string_discrete p q) none (peer_of j q s) else peer_of j q s)
  unfolding remove_from_events member
  peer_of-remove_from_events p [] s j q = refl
  peer_of-remove_from_events p (event ∷ events) s j q = ground (
    arith,
    peer_of-remove_from_events p events (remove_peer event p s).0 j q,
    peer_of-remove_peer event p s j q,
  )

  get_unlisted : (s : Subscriptions M) (j : String) → member j (keys s) ≡ false → get j s ≡ none
  unfolding get member
  get_unlisted [] j h = refl
  get_unlisted ((event, peers) ∷ s) j h = ground (arith, get_unlisted s j)

  peer_of_unlisted :
      (s : Subscriptions M) (j q : String) → member j (keys s) ≡ false → peer_of j q s ≡ none
  unfolding peer_of
  peer_of_unlisted s j q h = rw (get_unlisted s j h, peer_of) refl

  pub peer_of-remove_all :
      (p : String) (s : Subscriptions M) (j q : String)
      → peer_of j q (remove_peer_from_all_event p s).0
        ≡ ite (string_discrete p q) none (peer_of j q s)
  unfolding remove_peer_from_all_event
  peer_of-remove_all p s j q = elim (Bool-cases (member j (keys s))) [
    | inl there ↦ peer_of-remove_from_events p (keys s) s j q ∙ rw (there) refl
    | inr absent ↦
        ground (
          arith,
          peer_of-remove_from_events p (keys s) s j q,
          absent,
          peer_of_unlisted s j q absent,
        )
  ]

  peer_of-remove_peers :
      (peers : List String) (s : Subscriptions M) (j q : String)
      → peer_of j q (remove_peers peers s) ≡ (if member q peers then none else peer_of j q s)
  unfolding remove_peers member
  peer_of-remove_peers [] s j q = refl
  peer_of-remove_peers (p ∷ peers) s j q = ground (
    arith,
    peer_of-remove_peers peers (remove_peer_from_all_event p s).0 j q,
    peer_of-remove_all p s j q,
  )

  pub peer_of-on_delete :
      (local : String) (r : DeleteEntriesRequest String) (s : Subscriptions M) (j q : String)
      → peer_of j q (on_delete_subscriptions local r s).0
        ≡ (if member q r.keys then none else peer_of j q s)
  unfolding on_delete_subscriptions
  peer_of-on_delete local r s j q = peer_of-remove_peers r.keys s j q

  -- A RemoveEntriesRequest with a source takes this peer off every event, whatever the keys of the
  -- request, and leaves the subscriptions of all other peers as they are.
  pub peer_of-on_remove :
      (local source : String) (r : RemoveEntriesRequest String String) (s : Subscriptions M)
      (j q : String)
      → r.source_endpoint_id ≡ some source
      → peer_of j q (on_remove_subscriptions local r s).0
        ≡ ite (string_discrete source q) none (peer_of j q s)
  unfolding on_remove_subscriptions
  peer_of-on_remove local source r s j q h = rw (h) (peer_of-remove_all source s j q)
