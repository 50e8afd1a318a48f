-- ===== src/Collections/Subscriptions/Import.antt =====
-- What the import of a snapshot makes of the subscriptions.
use hamok_ts.Prelude.{
  string_discrete, String, ◌≡◌, refl, ap, ite, Option, none, some, [], ◌∷◌, arith, string_key,
  first_some,
}
use hamok_ts.JsMap.{get, set, has, Unique}
use hamok_ts.JsMap.Laws.{get-set}
use hamok_ts.Collections.Subscriptions.{Subscriptions, Peers, peer_of, add_peer, add_to}
use hamok_ts.Collections.Subscriptions.Handlers.{
  import_subscribers, import_subscriptions, export_subscribers, export_subscriptions,
}

module _ {M : Type 0} where
  peer_of-add_to :
      (found : Option (Peers M)) (event p : String) (meta : Option M) (s : Subscriptions M)
      (j q : String)
      → get event s ≡ found
      → peer_of j q (add_to found event p meta s).0
        ≡ ite
            (string_discrete event j)
            (ite (string_discrete p q) (first_some (peer_of j q s) (some meta)) (peer_of j q s))
            (peer_of j q s)
  unfolding add_to peer_of has get set
  peer_of-add_to none event p meta s j q h = ground (arith, h, get-set event j ((p, meta) ∷ []) s)
  peer_of-add_to (some peers) event p meta s j q h =
      ground (arith, h, get-set event j (set p meta peers) s, get-set p q meta peers)

  pub peer_of-add_peer :
      (event p : String) (meta : Option M) (s : Subscriptions M) (j q : String)
      → peer_of j q (add_peer event p meta s).0
        ≡ ite
            (string_discrete event j)
            (ite (string_discrete p q) (first_some (peer_of j q s) (some meta)) (peer_of j q s))
            (peer_of j q s)
  unfolding add_peer
  peer_of-add_peer event p meta s j q = peer_of-add_to (get event s) event p meta s j q refl

  peer_of-import_subscribers :
      (event : String) (peers : Peers M) (s : Subscriptions M) (j q : String)
      → peer_of j q (import_subscribers event peers s)
        ≡ ite (string_discrete event j) (first_some (peer_of j q s) (get q peers)) (peer_of j q s)
  unfolding import_subscribers get
  peer_of-import_subscribers event [] s j q = ground arith
  peer_of-import_subscribers event ((p, meta) ∷ peers) s j q = ground (
    arith,
    peer_of-import_subscribers event peers (add_peer event p meta s).0 j q,
    peer_of-add_peer event p meta s j q,
  )

  pub peer_of-import :
      (snapshot : Subscriptions M) (s : Subscriptions M) (j q : String)
      → Unique snapshot
      → peer_of j q (import_subscriptions snapshot s)
        ≡ first_some (peer_of j q s) (peer_of j q snapshot)
  unfolding import_subscriptions peer_of get
  peer_of-import [] s j q u = ground arith
  peer_of-import ((event, peers) ∷ snapshot) s j q u = ground (
    arith,
    peer_of-import snapshot (import_subscribers event peers s) j q u.1,
    peer_of-import_subscribers event peers s j q,
    u.0,
  )

  export_subscribers_same : (peers : Peers M) → export_subscribers peers ≡ peers
  unfolding export_subscribers
  export_subscribers_same [] = refl
  export_subscribers_same ((p, meta) ∷ peers) =
      ap (λ rest. (p, meta) ∷ rest) (export_subscribers_same peers)

  export_subscriptions_same : (s : Subscriptions M) → export_subscriptions s ≡ s
  unfolding export_subscriptions
  export_subscriptions_same [] = refl
  export_subscriptions_same ((event, peers) ∷ s) =
      rw (export_subscribers_same peers, export_subscriptions_same s) refl

  -- Where no event stands twice, the exported subscriptions, imported by an emitter without any,
  -- give every peer on every event the metadata that it had, and no peer more.
  pub peer_of-import-export :
      (s : Subscriptions M) (j q : String)
      → Unique s
      → peer_of j q (import_subscriptions (export_subscriptions s) []) ≡ peer_of j q s
  unfolding peer_of get
  peer_of-import-export s j q u = rw (export_subscriptions_same s) (peer_of-import s [] j q u)
