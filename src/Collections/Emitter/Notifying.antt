-- ===== src/Collections/Emitter/Notifying.antt =====
-- Whom a notification reaches.
use hamok_ts.Prelude.{
  String, ◌≡◌, refl, ap, List, [], ◌∷◌, string_key, arith, false, Option, none, some, or_else,
  if_defined,
}
use hamok_ts.JsMap.{member}
use hamok_ts.Collections.Subscriptions.{Subscriptions, get_peer_ids}
use hamok_ts.Collections.Emitter.{
  EmitterOutput, emits_event, notifies_update, requests_update, responds_update, Arguments,
  notify_peers, notify_to, notify_some, notify, only_local, other_peers,
}

module _ {A : Type 0} where
  -- The peers that the outputs notify, in order.
  abbrev pub notified : List (EmitterOutput A) → List String
  notified [] = []
  notified (emits_event event args ∷ outputs) = notified outputs
  notified (notifies_update entries peer ∷ outputs) = peer ∷ notified outputs
  notified (requests_update entries peers ∷ outputs) = notified outputs
  notified (responds_update i peer ∷ outputs) = notified outputs

  notified-notify_peers :
      (arguments : Arguments A) (local event : String) (args : A) (text : String)
      (peers : List String)
      → notified (notify_peers arguments local event args text peers) ≡ other_peers local peers
  unfolding notify_peers other_peers
  notified-notify_peers arguments local event args text [] = refl
  notified-notify_peers arguments local event args text (peer ∷ peers) =
      ground (arith, notified-notify_peers arguments local event args text peers)

  notified-notify_to :
      (arguments : Arguments A) (local event : String) (args : A) (peers : List String)
      → notified (notify_to arguments local event args peers).1 ≡ other_peers local peers
  unfolding notify_to only_local other_peers member
  notified-notify_to arguments local event args [] = refl
  notified-notify_to arguments local event args (peer ∷ []) = ground arith
  notified-notify_to arguments local event args (peer ∷ next ∷ peers) = ground (
    arith,
    notified-notify_peers arguments local event args (arguments.encode event args)
        (peer ∷ next ∷ peers),
  )

  notified-notify_some :
      (arguments : Arguments A) (local event : String) (args : A) (found : Option (List String))
      → notified (notify_some arguments local event args found).1
        ≡ other_peers local (or_else found [])
  unfolding notify_some other_peers
  notified-notify_some arguments local event args none = refl
  notified-notify_some arguments local event args (some peers) =
      notified-notify_to arguments local event args peers

  -- A call of notify on an emitter that is not closed sends a notification to each peer that has
  -- subscribed to the event, less the local one, in the order of the subscriptions.
  pub notified-notify :
      {M : Type 0} (arguments : Arguments A) (local event : String) (args : A) (s : Subscriptions M)
      → if_defined (λ r. notified r.1) (notify arguments false local event args s)
        ≡ some (other_peers local (or_else (get_peer_ids event s) []))
  unfolding notify
  notified-notify arguments local event args s =
      ap some (notified-notify_some arguments local event args (get_peer_ids event s))
