-- ===== src/Relay/Safety.antt =====
-- What a datagram can do to the relay's membership state.
use amt.Prelude.{
  ℕ, ◌≡◌, refl, ◌∙◌, arith, ◌⊎◌, Option, none, some, List, inl, inr, ok, err, Result-cases,
}
use amt.Address.{SocketAddr}
use amt.Protocol.{Message}
use amt.Protocol.Codec.{decode}
use amt.State.{RelayState}
use amt.State.Valid.{IsValid, apply_report_limited-IsValid, remove_endpoint-IsValid}
use amt.Relay.{Host, Relay}
use amt.Relay.Auth.{rotate_secret_if_due, remember_gateway_ecn_capability}
use amt.Relay.Handle.{
  Prepared, handle_update, handle_teardown, handle_message, prepare_datagram, handle_datagram,
  commit,
}
use amt.Relay.Next.{
  Applied, Removed, named_endpoint, handle_update-next, handle_teardown-next, handle_teardown-state,
  next_of,
}

-- What a message from `peer` leaves of the membership state: the state itself, a report of the peer
-- applied, or the endpoint of a Teardown removed.
abbrev pub Outcome : Host → Relay → ℕ → SocketAddr → Message → RelayState → Type 0
Outcome host relay now peer (Message.membership_update mac nonce update) next_state =
    (next_state ≡ relay.state) ⊎ Applied host relay now peer mac nonce update next_state
Outcome host relay now peer (Message.teardown mac nonce gateway) next_state =
    (next_state ≡ relay.state) ⊎ Removed host relay now mac nonce gateway next_state
Outcome host relay now peer _ next_state = next_state ≡ relay.state

commit-none :
    (relay : Relay) (p : Prepared) → next_of p ≡ none → (commit relay p).0.state ≡ relay.state
commit-none relay (err e) h = refl
commit-none relay (ok (action, none)) h = refl
commit-none relay (ok (action, some s)) h = cc

commit-some :
    (relay : Relay) (p : Prepared) (s : RelayState)
    → next_of p ≡ some s
    → (commit relay p).0.state ≡ s
commit-some relay (err e) s h = cc
commit-some relay (ok (action, none)) s h = cc
commit-some relay (ok (action, some t)) s h = cc

handle_message-Outcome :
    (host : Host) (relay : Relay) (now : ℕ) (peer : SocketAddr) (message : Message)
    → (let (relay', prepared) = handle_message host relay now peer message in
        Outcome host relay now peer message (commit relay' prepared).0.state)
unfolding handle_message remember_gateway_ecn_capability
handle_message-Outcome host relay now peer (Message.relay_discovery nonce) = ground arith
handle_message-Outcome host relay now peer (Message.request nonce protocol ecn) = refl
handle_message-Outcome host relay now peer (Message.membership_update mac nonce update) =
    elim (handle_update-next host relay now peer mac nonce update) [
      | inl e ↦ inl (commit-none relay (handle_update host relay now peer mac nonce update) e)
      | inr (s, e, a) ↦
          inr (rw (commit-some relay (handle_update host relay now peer mac nonce update) s e) a)
    ]
handle_message-Outcome host relay now peer (Message.teardown mac nonce gateway) =
    elim (handle_teardown-next host relay now mac nonce gateway) [
      | inl e ↦ inl (
          commit-none (handle_teardown host relay now mac nonce gateway).0
            (handle_teardown host relay now mac nonce gateway).1 e
          ∙ handle_teardown-state host relay now mac nonce gateway)
      | inr (s, e, a) ↦ inr (
          rw
            (commit-some (handle_teardown host relay now mac nonce gateway).0
              (handle_teardown host relay now mac nonce gateway).1 s e)
            a)
    ]
handle_message-Outcome host relay now peer (Message.relay_advertisement nonce address) = refl
handle_message-Outcome host relay now peer
      (Message.membership_query mac nonce limit gateway query) =
    refl
handle_message-Outcome host relay now peer (Message.multicast_data packet) = refl

pub rotate_secret_if_due-state :
    (relay : Relay) (now : ℕ) (drawn : Option (List ℕ))
    → (rotate_secret_if_due relay now drawn).state ≡ relay.state
unfolding rotate_secret_if_due
rotate_secret_if_due-state relay now drawn = ground arith

-- A datagram changes the membership state only where it decodes to a Membership Update with a valid
-- response MAC for the sender, whose report is applied for the sender under the relay's limits, or
-- to a Teardown with a valid response MAC for the endpoint it names, which is removed. Validity is
-- judged after the rotation of the secret.
pub handle_datagram-Outcome :
    (host : Host) (relay : Relay) (now : ℕ) (drawn : Option (List ℕ)) (peer : SocketAddr)
    (datagram : List ℕ)
    → ((handle_datagram host relay now drawn peer datagram).0.state ≡ relay.state)
      ⊎ ((message : Message) × (decode datagram ≡ ok message)
          × Outcome host
              (rotate_secret_if_due relay now drawn)
              now
              peer
              message
              (handle_datagram host relay now drawn peer datagram).0.state)
unfolding handle_datagram prepare_datagram
handle_datagram-Outcome host relay now drawn peer datagram = elim (Result-cases (decode datagram)) [
  | inl (message, e) ↦ inr (
    message,
    e,
    rw (e, handle_datagram, prepare_datagram)
        (handle_message-Outcome host (rotate_secret_if_due relay now drawn) now peer message),
  )
  | inr (x, e) ↦
      inl (rw (e, handle_datagram, prepare_datagram) (rotate_secret_if_due-state relay now drawn))
]

Outcome-IsValid :
    (host : Host) (relay : Relay) (now : ℕ) (peer : SocketAddr) (message : Message)
    (next_state : RelayState)
    → IsValid relay.state
    → Outcome host relay now peer message next_state
    → IsValid next_state
Outcome-IsValid host relay now peer (Message.membership_update mac nonce update) s v o = elim o [
  | inl e ↦ rw e v
  | inr (_, (report, _, e)) ↦
      rw e (apply_report_limited-IsValid relay.state peer report relay.config.limits v)
]
Outcome-IsValid host relay now peer (Message.teardown mac nonce gateway) s v o = elim o [
  | inl e ↦ rw e v
  | inr (_, e) ↦ rw e (remove_endpoint-IsValid relay.state (named_endpoint gateway) v)
]
Outcome-IsValid host relay now peer (Message.relay_discovery nonce) s v o = rw o v
Outcome-IsValid host relay now peer (Message.request nonce protocol ecn) s v o = rw o v
Outcome-IsValid host relay now peer (Message.relay_advertisement nonce address) s v o = rw o v
Outcome-IsValid host relay now peer (Message.membership_query mac nonce limit gateway query) s v o =
    rw o v
Outcome-IsValid host relay now peer (Message.multicast_data packet) s v o = rw o v

-- Whatever datagram arrives, from whomever, a relay's membership state stays valid.
pub handle_datagram-IsValid :
    (host : Host) (relay : Relay) (now : ℕ) (drawn : Option (List ℕ)) (peer : SocketAddr)
    (datagram : List ℕ)
    → IsValid relay.state
    → IsValid (handle_datagram host relay now drawn peer datagram).0.state
handle_datagram-IsValid host relay now drawn peer datagram v =
    elim (handle_datagram-Outcome host relay now drawn peer datagram) [
      | inl e ↦ rw e v
      | inr (message, e, o) ↦
          Outcome-IsValid host (rotate_secret_if_due relay now drawn) now peer message _
            (rw (rotate_secret_if_due-state relay now drawn) v) o
    ]
