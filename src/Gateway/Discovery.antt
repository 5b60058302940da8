-- ===== src/Gateway/Discovery.antt =====
-- The configuration, the candidate relays and the discovery cycle of gateway.rs. A method that changes
-- the gateway returns the new one.
use amt.Prelude.{
  ℕ, Bool, true, false, not, ◌&&◌, ◌||◌, Option, none, some, List, [], ◌∷◌, ◌++◌, Result, ok, err,
  ◌>>=◌, ok_or, if◌then◌else◌, ◌==◌,
}
use amt.Address.{SocketAddr, same_family, socket_eq}
use amt.Collections.BTreeSet.{contains, retain}
use amt.Collections.Key.{ip_key, socket_key}
use amt.Protocol.{Message}
use amt.Protocol.Codec.{encode}
use amt.State.Interest.{is_empty}
use amt.State.Ops.{empty_state, is_some}
use amt.Gateway.{
  GatewayConfig, discovering, awaiting_membership_query, GatewaySession, Gateway, GatewayAction,
  send, GatewayError, missing_relay_endpoint, is_awaiting_phase, is_established_phase,
}

-- The candidates of the loops that push: of the family, not yet there, and not `refused`.
abbrev pub push_relays : (SocketAddr → Bool) → List SocketAddr → List SocketAddr → List SocketAddr
unfolding contains
push_relays usable pushed [] = pushed
push_relays usable pushed (relay ∷ rest) =
    push_relays usable
      (if usable relay && not (contains relay pushed) then pushed ++ (relay ∷ []) else pushed) rest

unfoldable pub with_fallback_relays : GatewayConfig → List SocketAddr → GatewayConfig
with_fallback_relays config relays = record config {
  fallback_relays =
      push_relays
        (λ relay. not (socket_eq relay config.relay) && same_family relay.ip config.relay.ip) []
        relays;
}

abbrev pub nonzero_or_random : ℕ → ℕ → ℕ
nonzero_or_random nonce drawn = if not (nonce == 0) then nonce else drawn

unfoldable pub new_gateway : GatewayConfig → ℕ → ℕ → Gateway
new_gateway config drawn_discovery drawn_request = record {
  config = record config {
    discovery_nonce = nonzero_or_random config.discovery_nonce drawn_discovery;
    request_nonce = nonzero_or_random config.request_nonce drawn_request;
  };
  relay_candidates = config.relay ∷ config.fallback_relays;
  phase = discovering;
  relay_endpoint = none;
  session = none;
  reception_state = empty_state;
}

abbrev pub is_established : Gateway → Bool
is_established g = is_established_phase g.phase && is_some g.session

abbrev pub is_awaiting_query : Gateway → Bool
is_awaiting_query g = is_awaiting_phase g.phase

abbrev pub reported : Option GatewaySession → Bool
reported none = false
reported (some s) = s.reported_memberships

abbrev pub has_reported_memberships : Gateway → Bool
has_reported_memberships g = reported g.session

unfoldable pub discovery : Gateway → GatewayAction
discovery g = send (record {
  destination = g.config.relay;
  datagram = encode (Message.relay_discovery g.config.discovery_nonce);
})

abbrev pub request_datagram : GatewayConfig → List ℕ
request_datagram config = encode (Message.request config.request_nonce config.protocol config.ecn)

unfoldable pub request : Gateway → Result GatewayError GatewayAction
request g = do
  relay ← ok_or g.relay_endpoint missing_relay_endpoint
  ok (send (record { destination = relay; datagram = request_datagram g.config }))

abbrev pub Handled : Type 0
Handled = Gateway × Result GatewayError GatewayAction

unfoldable pub begin_query_cycle : Gateway → ℕ → Handled
unfolding request
begin_query_cycle g drawn =
    let next : Gateway = record g {
      config = record g.config { request_nonce = drawn };
      phase = awaiting_membership_query;
    } in
    if not (is_some g.relay_endpoint) then (g, err missing_relay_endpoint) else (next, request next)

-- The configuration with the next of the fallback relays, which the relay before joins at the end
-- while it is a candidate.
abbrev pub next_relay : List SocketAddr → GatewayConfig → List SocketAddr → GatewayConfig
unfolding contains
next_relay candidates config [] = config
next_relay candidates config (next ∷ rest) = record config {
  relay = next;
  fallback_relays = if contains config.relay candidates then rest ++ (config.relay ∷ []) else rest;
}

unfoldable pub restart_discovery : Gateway → ℕ → ℕ → Gateway × GatewayAction
unfolding discovery
restart_discovery g drawn_discovery drawn_request =
    let next : Gateway = record g {
      config = record (next_relay g.relay_candidates g.config g.config.fallback_relays) {
        discovery_nonce = drawn_discovery;
        request_nonce = drawn_request;
      };
      phase = discovering;
      relay_endpoint = none;
      session = none;
    } in
    (next, discovery next)

-- The equality of two vectors.
abbrev pub relays_eq : List SocketAddr → List SocketAddr → Bool
relays_eq [] [] = true
relays_eq (a ∷ as') (b ∷ bs) = socket_eq a b && relays_eq as' bs
relays_eq _ _ = false

unfoldable pub replace_relay_candidates : Gateway → List SocketAddr → Gateway × Bool
unfolding retain
replace_relay_candidates g relays =
    let candidates = push_relays (λ relay. same_family relay.ip g.config.relay.ip) [] relays in
    let fallback = retain (λ relay. not (socket_eq relay g.config.relay)) candidates in
    if is_empty candidates || relays_eq candidates g.relay_candidates then (g, false) else (
      record g {
        relay_candidates = candidates;
        config = record g.config { fallback_relays = fallback };
      },
      true,
    )

unfoldable pub current_relay_is_retired : Gateway → Bool
unfolding contains
current_relay_is_retired g = not (contains g.config.relay g.relay_candidates)
