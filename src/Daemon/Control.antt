-- ===== src/Daemon/Control.antt =====
-- The control plane of the relay in daemon.rs: which gateways have been seen, and the handling of a
-- datagram around the relay's own. `reconcile` says whether the upstream worker has taken the
-- subscriptions. An instant is a number of nanoseconds, the same throughout one call.
use amt.Prelude.{
  ℕ, suc, ◌-◌, Bool, false, not, ◌&&◌, Option, none, some, List, [], ◌∷◌, ok, err, if◌then◌else◌,
  leb,
}
use amt.Address.{SocketAddr}
use amt.Collections.BTreeMap
use amt.Collections.Key.{socket_key}
use amt.State.{RelayState, UpstreamSubscription}
use amt.State.Ops.{contains_endpoint}
use amt.Protocol.Codec.{as_ipv4_compatible}
use amt.Relay.{
  Host, Relay, RelayAction, send, accepted_membership_update, accepted_teardown, rejected_auth,
  ignored,
}
use amt.Relay.Handle.{prepare_datagram, commit_state, remove_gateway, teardown_ip, Prepared}

pub record GatewayActivity : Type 0 where
  pub last_seen : List (SocketAddr × ℕ)

abbrev pub mark_seen_at : GatewayActivity → SocketAddr → ℕ → GatewayActivity
mark_seen_at a endpoint now = record a { last_seen = BTreeMap.insert endpoint now a.last_seen }

abbrev pub forget : GatewayActivity → SocketAddr → GatewayActivity
forget a endpoint = record a { last_seen = BTreeMap.remove endpoint a.last_seen }

-- `checked_duration_since` is none for an instant that lies ahead.
unfoldable pub stale_endpoints_at : ℕ → ℕ → List (SocketAddr × ℕ) → List SocketAddr
stale_endpoints_at timeout now [] = []
stale_endpoints_at timeout now ((endpoint, last) ∷ rest) =
    let stale = stale_endpoints_at timeout now rest in
    if leb last now && leb timeout (now - last) then endpoint ∷ stale else stale

-- The loop over the stale endpoints, which commits each removal without asking the upstream worker;
-- the daemon asks it afterwards, and only logs a refusal. The number is how many gateways are removed.
unfoldable pub prune_each :
    Relay → GatewayActivity → List SocketAddr → Relay × (GatewayActivity × ℕ)
unfolding remove_gateway
prune_each relay activity [] = (relay, (activity, 0))
prune_each relay activity (endpoint ∷ rest) =
    let (relay', removed) = remove_gateway relay endpoint in
    let (relay'', (activity', expired)) = prune_each relay' (forget activity endpoint) rest in
    (relay'', (activity', (if removed then suc expired else expired)))

unfoldable pub prune_stale_gateways :
    Relay → GatewayActivity → ℕ → ℕ → Relay × (GatewayActivity × ℕ)
unfolding prune_each stale_endpoints_at
prune_stale_gateways relay activity timeout now =
    prune_each relay activity (stale_endpoints_at timeout now activity.last_seen)

-- Whether the upstream worker refuses the candidate state, if there is one.
abbrev pub upstream_refuses : (List UpstreamSubscription → Bool) → Option RelayState → Bool
upstream_refuses reconcile none = false
upstream_refuses reconcile (some candidate) = not (reconcile candidate.subscriptions)

abbrev pub committed : Relay → Option RelayState → Relay
committed relay none = relay
committed relay (some next_state) = commit_state relay next_state

-- The activity after the action.
abbrev pub act : Relay → GatewayActivity → SocketAddr → ℕ → RelayAction → GatewayActivity
act relay activity peer now (send response) = activity
act relay activity peer now (accepted_membership_update protocol bytes records subscriptions) =
    if contains_endpoint relay.state peer
    then mark_seen_at activity peer now
    else forget activity peer
act relay activity peer now (accepted_teardown gateway removed) = forget activity (record {
  ip = teardown_ip gateway.address (as_ipv4_compatible gateway.address);
  port = gateway.port;
})
act relay activity peer now rejected_auth = activity
act relay activity peer now ignored = activity

-- The datagram that is sent to the peer.
abbrev pub response_of : RelayAction → Option (List ℕ)
response_of (send response) = some response
response_of (accepted_membership_update protocol bytes records subscriptions) = none
response_of (accepted_teardown gateway removed) = none
response_of rejected_auth = none
response_of ignored = none

pub record Controlled : Type 0 where
  pub relay : Relay
  pub activity : GatewayActivity
  pub response : Option (List ℕ)

abbrev pub settle :
    (List UpstreamSubscription → Bool)
    → Relay
    → GatewayActivity
    → SocketAddr
    → ℕ
    → Prepared
    → Controlled
settle reconcile relay activity peer now (err e) = record {
  relay = relay;
  activity = activity;
  response = none;
}
settle reconcile relay activity peer now (ok (action, next_state)) =
    let relay' = committed relay next_state in
    if upstream_refuses reconcile next_state
    then record {
      relay = relay;
      activity =
          if contains_endpoint relay.state peer then mark_seen_at activity peer now else activity;
      response = none;
    }
    else record {
      relay = relay';
      activity = act relay' activity peer now action;
      response = response_of action;
    }

unfoldable pub handle_amt_datagram :
    (List UpstreamSubscription → Bool)
    → Host
    → Relay
    → GatewayActivity
    → ℕ
    → Option (List ℕ)
    → SocketAddr
    → List ℕ
    → Controlled
unfolding prepare_datagram
handle_amt_datagram reconcile host relay activity now drawn peer datagram =
    let (relay', prepared) = prepare_datagram host relay now drawn peer datagram in
    settle reconcile relay' activity peer now prepared
