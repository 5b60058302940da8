-- ===== src/Gateway/Handle.antt =====
-- The gateway's answer to a datagram, in gateway.rs.
use amt.Prelude.{
  ℕ, Bool, false, not, ◌&&◌, ◌||◌, Option, none, some, List, Result, ok, err, ◌>>=◌, ◌>>◌, guard,
  ok_or, map_err, if◌then◌else◌, length, ◌==◌,
}
use amt.Address.{IpAddr, v4, SocketAddr, same_family, socket_eq}
use amt.Collections.Key.{ip_key, socket_key}
use amt.Ecn.{EcnCodepoint, not_ect, EcnDecapsulation, is_drop, decapsulate_ecn}
use amt.Ip.{parse_multicast_packet}
use amt.Protocol.{Message, GatewayEndpoint, ResponseMac}
use amt.Protocol.Codec.{encode, decode}
use amt.Query.{validated_general_query}
use amt.State.Interest.{interest_wants}
use amt.State.Ops.{is_some, endpoint_interest}
use amt.Gateway.{
  GatewayConfig, GatewayPhase, discovering, awaiting_membership_query, established, GatewaySession,
  Gateway, GatewaySend, GatewayAction, send, multicast_data, dropped_ecn, ignored, GatewayError,
  decode_error, invalid_general_query, invalid_multicast_packet, invalid_ecn,
  unexpected_discovery_nonce, unexpected_request_nonce, unexpected_peer,
  unexpected_message_for_state, invalid_relay_address, missing_relay_endpoint, is_usable_unicast,
  endpoint_eq, is_discovering,
}
use amt.Gateway.Discovery.{Handled, request_datagram}

abbrev pub reception_state_endpoint : SocketAddr
reception_state_endpoint = record { ip = v4 0; port = 0 }

-- A relay's answer to the discovery: the relay's endpoint has its address and the peer's port.
unfoldable pub handle_advertisement : Gateway → SocketAddr → ℕ → IpAddr → Handled
unfolding is_usable_unicast
handle_advertisement g peer nonce address =
    let relay : SocketAddr = record { ip = address; port = peer.port } in
    if not (is_discovering g.phase)
    then (g, err (unexpected_message_for_state "Relay Advertisement" g.phase))
    else if not (nonce == g.config.discovery_nonce)
    then (g, err (unexpected_discovery_nonce g.config.discovery_nonce nonce))
    else if not (is_usable_unicast address) || not (same_family address peer.ip)
    then (g, err (invalid_relay_address address))
    else (
      record g { relay_endpoint = some relay; phase = awaiting_membership_query },
      ok (send (record { destination = relay; datagram = request_datagram g.config })),
    )

-- The nonce that a query must carry, if the phase admits a query.
abbrev pub expected_nonce : GatewayConfig → GatewayPhase → Option GatewaySession → Option ℕ
expected_nonce config awaiting_membership_query session = some config.request_nonce
expected_nonce config established (some session) = some session.request_nonce
expected_nonce config established none = none
expected_nonce config discovering session = none

abbrev pub teardown_send : SocketAddr → GatewaySession → GatewayEndpoint → GatewaySend
teardown_send relay session gateway = record {
  destination = relay;
  datagram = encode (Message.teardown session.response_mac session.request_nonce gateway);
}

abbrev pub teardown_of : SocketAddr → GatewaySession → Option GatewayEndpoint → Option GatewaySend
teardown_of relay session none = none
teardown_of relay session (some gateway) = some (teardown_send relay session gateway)

-- The teardown of the session before, where the relay sees the gateway at another endpoint now.
abbrev pub previous_teardown :
    SocketAddr → Option GatewaySession → Option GatewayEndpoint → Option GatewaySend
previous_teardown relay none gateway = none
previous_teardown relay (some session) gateway =
    if not (endpoint_eq session.gateway_endpoint gateway)
    then teardown_of relay session session.gateway_endpoint
    else none

abbrev pub still_reported : Option GatewaySession → Option GatewayEndpoint → Bool
still_reported none gateway = false
still_reported (some session) gateway =
    endpoint_eq session.gateway_endpoint gateway && session.reported_memberships

-- The query is judged first: `Ok` holds the interval and the datagram of the query.
abbrev pub check_query : Gateway → ℕ → List ℕ → Result GatewayError (SocketAddr × (ℕ × List ℕ))
check_query g nonce query = do
  relay ← ok_or g.relay_endpoint missing_relay_endpoint
  expected ←
      ok_or (expected_nonce g.config g.phase g.session)
        (unexpected_message_for_state "Membership Query" g.phase)
  guard (nonce == expected) (unexpected_request_nonce expected nonce)
  valid ← map_err invalid_general_query (validated_general_query g.config.protocol query)
  ok (relay, valid)

unfoldable pub handle_query :
    Gateway → ResponseMac → ℕ → Bool → Option GatewayEndpoint → List ℕ → Handled
handle_query g mac nonce limit gateway query = elim (check_query g nonce query) [
  | err e ↦ (g, err e)
  | ok (relay, (interval, general_query)) ↦ (
    record g {
      session = some (record {
        response_mac = mac;
        request_nonce = nonce;
        gateway_endpoint = gateway;
        reported_memberships = still_reported g.session gateway;
      });
      phase = established;
    },
    ok (
        GatewayAction.membership_query mac limit gateway general_query interval
          (previous_teardown relay g.session gateway)),
  )
]

-- The packet after the outer ECN field has been combined into it, or its drop.
abbrev pub deliver : List ℕ × EcnDecapsulation → GatewayAction
deliver (packet, ecn) =
    if is_drop ecn then dropped_ecn ecn (length packet) else multicast_data packet (some ecn)

unfoldable pub handle_data : Gateway → List ℕ → EcnCodepoint → Result GatewayError GatewayAction
unfolding endpoint_interest
handle_data g packet outer_ecn = do
  guard (is_some g.relay_endpoint) missing_relay_endpoint
  guard (is_some g.session) (unexpected_message_for_state "Multicast Data" g.phase)
  parsed ← map_err invalid_multicast_packet (parse_multicast_packet packet)
  if not (
        interest_wants (endpoint_interest g.reception_state reception_state_endpoint parsed.group)
          parsed.source)
      then ok ignored
      else if g.config.ecn
      then (map_err invalid_ecn (decapsulate_ecn packet outer_ecn) >>= λ r. ok (deliver r))
      else ok (multicast_data packet none)

unfoldable pub handle_message : Gateway → SocketAddr → EcnCodepoint → Message → Handled
unfolding handle_advertisement handle_query handle_data
handle_message g peer outer_ecn (Message.relay_advertisement nonce address) =
    handle_advertisement g peer nonce address
handle_message g peer outer_ecn (Message.membership_query mac nonce limit gateway query) =
    handle_query g mac nonce limit gateway query
handle_message g peer outer_ecn (Message.multicast_data packet) =
    (g, handle_data g packet outer_ecn)
handle_message g peer outer_ecn (Message.relay_discovery nonce) = (g, ok ignored)
handle_message g peer outer_ecn (Message.request nonce protocol ecn_capable) = (g, ok ignored)
handle_message g peer outer_ecn (Message.membership_update mac nonce update) = (g, ok ignored)
handle_message g peer outer_ecn (Message.teardown mac nonce gateway) = (g, ok ignored)

abbrev pub expected_peer : Gateway → SocketAddr
expected_peer g = elim g.relay_endpoint [ none ↦ g.config.relay | some relay ↦ relay ]

unfoldable pub handle_datagram_with_ecn : Gateway → SocketAddr → List ℕ → EcnCodepoint → Handled
unfolding handle_message decode
handle_datagram_with_ecn g peer datagram outer_ecn =
    if not (socket_eq peer (expected_peer g))
    then (g, err (unexpected_peer (expected_peer g) peer))
    else elim (decode datagram) [
      | ok message ↦ handle_message g peer outer_ecn message
      | err e ↦ (g, err (decode_error e))
    ]

unfoldable pub handle_datagram : Gateway → SocketAddr → List ℕ → Handled
unfolding handle_datagram_with_ecn
handle_datagram g peer datagram = handle_datagram_with_ecn g peer datagram not_ect
