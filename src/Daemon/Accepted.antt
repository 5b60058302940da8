-- ===== src/Daemon/Accepted.antt =====
-- The relay's membership state and the upstream worker of daemon.rs, as far as datagrams go: the
-- pruning of idle gateways does not ask the worker.
use amt.Prelude.{
  ℕ, ◌≡◌, ◌⊎◌, inl, inr, refl, ◌∙◌, arith, Bool, true, Bool-cases, Option, none, some, List, ok,
  err, Result-cases,
}
use amt.Address.{SocketAddr}
use amt.Protocol.{Message}
use amt.Protocol.Codec.{decode}
use amt.State.{UpstreamSubscription}
use amt.Relay.{Host, Relay}
use amt.Relay.Auth.{rotate_secret_if_due, remember_gateway_ecn_capability}
use amt.Relay.Handle.{Prepared, handle_message, prepare_datagram}
use amt.Relay.Next.{handle_teardown-state}
use amt.Relay.Safety.{rotate_secret_if_due-state}
use amt.Daemon.Control.{GatewayActivity, settle, handle_amt_datagram}

handle_message-state :
    (host : Host) (relay : Relay) (now : ℕ) (peer : SocketAddr) (message : Message)
    → (handle_message host relay now peer message).0.state ≡ relay.state
unfolding handle_message remember_gateway_ecn_capability
handle_message-state host relay now peer (Message.relay_discovery nonce) = ground arith
handle_message-state host relay now peer (Message.request nonce protocol ecn) = ground arith
handle_message-state host relay now peer (Message.membership_update mac nonce update) = refl
handle_message-state host relay now peer (Message.teardown mac nonce gateway) =
    handle_teardown-state host relay now mac nonce gateway
handle_message-state host relay now peer (Message.relay_advertisement nonce address) = refl
handle_message-state host relay now peer (Message.membership_query mac nonce limit gateway query) =
    refl
handle_message-state host relay now peer (Message.multicast_data packet) = refl

settle-accepted :
    (reconcile : List UpstreamSubscription → Bool) (relay : Relay) (activity : GatewayActivity)
    (peer : SocketAddr) (now : ℕ) (p : Prepared)
    → ((settle reconcile relay activity peer now p).relay.state ≡ relay.state)
      ⊎ (reconcile (settle reconcile relay activity peer now p).relay.state.subscriptions ≡ true)
settle-accepted reconcile relay activity peer now (err e) = inl refl
settle-accepted reconcile relay activity peer now (ok (action, none)) = inl refl
settle-accepted reconcile relay activity peer now (ok (action, some next_state)) =
    elim (Bool-cases (reconcile next_state.subscriptions)) [
      | inl taken ↦ inr (rw taken taken)
      | inr refused ↦ inl (rw refused refl)
    ]

prepare_datagram-state :
    (host : Host) (relay : Relay) (now : ℕ) (drawn : Option (List ℕ)) (peer : SocketAddr)
    (datagram : List ℕ)
    → (prepare_datagram host relay now drawn peer datagram).0.state ≡ relay.state
unfolding prepare_datagram
prepare_datagram-state host relay now drawn peer datagram =
    let rotated = rotate_secret_if_due relay now drawn in
    elim (Result-cases (decode datagram)) [
      | inl (message, e) ↦
          rw (e, prepare_datagram)
            (handle_message-state host rotated now peer message
              ∙ rotate_secret_if_due-state relay now drawn)
      | inr (failure, e) ↦ rw (e, prepare_datagram) (rotate_secret_if_due-state relay now drawn)
    ]

-- Handling a datagram leaves the membership state as it was, or in a state whose subscriptions the
-- upstream worker has taken: no datagram takes the relay over to a state that the worker refuses.
pub handle_amt_datagram-accepted :
    (reconcile : List UpstreamSubscription → Bool) (host : Host) (relay : Relay)
    (activity : GatewayActivity) (now : ℕ) (drawn : Option (List ℕ)) (peer : SocketAddr)
    (datagram : List ℕ)
    → (let next =
          (handle_amt_datagram reconcile host relay activity now drawn peer datagram).relay in
        (next.state ≡ relay.state) ⊎ (reconcile next.state.subscriptions ≡ true))
unfolding handle_amt_datagram
handle_amt_datagram-accepted reconcile host relay activity now drawn peer datagram =
    let (relay', prepared) = prepare_datagram host relay now drawn peer datagram in
    elim (settle-accepted reconcile relay' activity peer now prepared) [
      | inl same ↦ inl (same ∙ prepare_datagram-state host relay now drawn peer datagram)
      | inr taken ↦ inr taken
    ]
