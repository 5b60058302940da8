-- ===== src/Handshake/Answers.antt =====
-- How each side answers the messages of a handshake.
use amt.Prelude.{
  ℕ, ◌^◌, ◌<◌, ◌≡◌, refl, ◌∙◌, arith, Bool, true, Option, none, some, List, ◌++◌, ok, length,
  length-take, if◌then◌else◌, All,
}
use amt.Prelude.Bytes.{IsByte, to_be, to_be-IsByte}
use amt.Address.{IpAddr, v4, v6, IsIp, SocketAddr, same_family, socket_eq}
use amt.Collections.Key.{socket_eq_iff}
use amt.Ecn.{EcnCodepoint}
use amt.Protocol.{Message, MembershipProtocol, GatewayEndpoint, IsEndpoint, IsGateway, ResponseMac}
use amt.Protocol.Codec.{encode, decode, from_ip_addr}
use amt.Protocol.RoundTrip.{
  discovery_round_trip, advertisement_round_trip, request_round_trip, plain_query_round_trip,
  gateway_query_round_trip,
}
use amt.Query.{build_general_query, validated_general_query}
use amt.Gateway.{
  Gateway, discovering, awaiting_membership_query, established, GatewayAction, is_usable_unicast,
}
use amt.Gateway.Discovery.{request_datagram}
use amt.Gateway.Handle.{
  handle_datagram_with_ecn, handle_advertisement, handle_query, still_reported,
}
use amt.Relay.{Host, Relay, RelayAction, advertised_addr_for}
use amt.Relay.Auth.{
  response_mac, response_mac_with_secret, rotate_secret_if_due, remember_gateway_ecn_capability,
  refusing_new_endpoint,
}
use amt.Relay
use amt.Relay.Handle.{handle_datagram, prepare_datagram, commit}
use amt.Handshake.{IsDigest}

-- The gateway's address as the relay reports it.
abbrev pub reported_gateway : Relay → SocketAddr → Option GatewayEndpoint
reported_gateway relay peer =
    if relay.config.include_gateway_address
    then some (record { port = peer.port; address = from_ip_addr peer.ip })
    else none

-- The handling of a datagram that decodes.
pub handle_datagram-decoded :
    (host : Host) (relay : Relay) (now : ℕ) (drawn : Option (List ℕ)) (peer : SocketAddr)
    (datagram : List ℕ) (message : Message)
    → decode datagram ≡ ok message
    → handle_datagram host relay now drawn peer datagram ≡ (
        let (relay', prepared) =
          Relay.Handle.handle_message host
            (rotate_secret_if_due relay now drawn)
            now
            peer
            message in
        commit relay' prepared)
unfolding handle_datagram prepare_datagram
handle_datagram-decoded host relay now drawn peer datagram message e =
    rw (e, handle_datagram, prepare_datagram) refl

pub answer-discovery :
    (host : Host) (relay : Relay) (now : ℕ) (drawn : Option (List ℕ)) (peer : SocketAddr)
    (nonce : ℕ)
    → 0 < nonce
    → nonce < 2 ^ 32
    → handle_datagram host relay now drawn peer (encode (Message.relay_discovery nonce)) ≡ (
      rotate_secret_if_due relay now drawn,
      ok (
          RelayAction.send (
            encode (
              Message.relay_advertisement nonce
                (advertised_addr_for (rotate_secret_if_due relay now drawn).config peer.ip)))),
    )
unfolding Relay.Handle.handle_message
answer-discovery host relay now drawn peer nonce positive fits =
    handle_datagram-decoded host relay now drawn peer _ _ (discovery_round_trip nonce fits)
    ∙ ground arith

pub answer-request :
    (host : Host) (relay : Relay) (now : ℕ) (drawn : Option (List ℕ)) (peer : SocketAddr)
    (nonce : ℕ) (protocol : MembershipProtocol) (ecn : Bool)
    → nonce < 2 ^ 32
    → (let relay' =
          remember_gateway_ecn_capability (rotate_secret_if_due relay now drawn) now peer ecn in
        handle_datagram host relay now drawn peer (encode (Message.request nonce protocol ecn)) ≡ (
          relay',
          ok (
              RelayAction.send (
                encode (
                  Message.membership_query
                    (response_mac host relay' peer.ip peer.port nonce)
                    nonce
                    (refusing_new_endpoint relay' peer.ip)
                    (reported_gateway relay' peer)
                    (build_general_query protocol relay'.config.general_query)))),
        ))
unfolding Relay.Handle.handle_message
answer-request host relay now drawn peer nonce protocol ecn fits =
    handle_datagram-decoded host relay now drawn peer _ _
      (request_round_trip nonce protocol ecn fits)

self_equal : (a : SocketAddr) → socket_eq a a ≡ true
self_equal a = (socket_eq_iff a a).1 refl

pub answer-advertisement :
    (g : Gateway) (address : IpAddr) (outer_ecn : EcnCodepoint)
    → g.phase ≡ discovering
    → g.relay_endpoint ≡ none
    → g.config.discovery_nonce < 2 ^ 32
    → IsIp address
    → is_usable_unicast address ≡ true
    → same_family address g.config.relay.ip ≡ true
    → (let relay : SocketAddr = record { ip = address; port = g.config.relay.port } in
        handle_datagram_with_ecn g g.config.relay
          (encode (Message.relay_advertisement g.config.discovery_nonce address))
          outer_ecn
        ≡ (
          record g { relay_endpoint = some relay; phase = awaiting_membership_query },
          ok (
              GatewayAction.send
                (record { destination = relay; datagram = request_datagram g.config })),
        ))
unfolding handle_datagram_with_ecn handle_advertisement
answer-advertisement g address outer_ecn phase unknown fits ip usable family = ground (
  arith,
  self_equal g.config.relay,
  advertisement_round_trip g.config.discovery_nonce address (fits, ip),
)

query_round_trip :
    (mac : ResponseMac) (nonce : ℕ) (limit : Bool) (gateway : Option GatewayEndpoint)
    (query : List ℕ)
    → length mac ≡ 6
    → nonce < 2 ^ 32
    → IsGateway gateway
    → decode (encode (Message.membership_query mac nonce limit gateway query))
      ≡ ok (Message.membership_query mac nonce limit gateway query)
query_round_trip mac nonce limit none query m h hg =
    plain_query_round_trip mac nonce limit query m h
query_round_trip mac nonce limit (some g) query m h hg =
    gateway_query_round_trip mac nonce limit g query m h hg

pub answer-query :
    (g : Gateway) (relay : SocketAddr) (mac : ResponseMac) (limit : Bool)
    (gateway : Option GatewayEndpoint) (query : List ℕ) (outer_ecn : EcnCodepoint) (interval : ℕ)
    → g.phase ≡ awaiting_membership_query
    → g.relay_endpoint ≡ some relay
    → length mac ≡ 6
    → g.config.request_nonce < 2 ^ 32
    → IsGateway gateway
    → validated_general_query g.config.protocol query ≡ ok (interval, query)
    → (handle_datagram_with_ecn g relay
        (encode (Message.membership_query mac g.config.request_nonce limit gateway query))
        outer_ecn).0
      ≡ record g {
        session = some (record {
          response_mac = mac;
          request_nonce = g.config.request_nonce;
          gateway_endpoint = gateway;
          reported_memberships = still_reported g.session gateway;
        });
        phase = established;
      }
unfolding handle_datagram_with_ecn handle_query
answer-query g relay mac limit gateway query outer_ecn interval phase known m fits hg valid =
    ground (
      arith,
      self_equal relay,
      query_round_trip mac g.config.request_nonce limit gateway query m fits hg,
    )

length-from_ip_addr : (ip : IpAddr) → length (from_ip_addr ip) ≡ 16
unfolding from_ip_addr
length-from_ip_addr (v4 a) = refl
length-from_ip_addr (v6 a) = refl

from_ip_addr-IsByte : (ip : IpAddr) → All IsByte (from_ip_addr ip)
unfolding from_ip_addr
from_ip_addr-IsByte (v4 a) = omega arith
from_ip_addr-IsByte (v6 a) = to_be-IsByte 16 a

from_ip_addr-IsEndpoint :
    (peer : SocketAddr)
    → peer.port < 2 ^ 16
    → IsEndpoint (record { port = peer.port; address = from_ip_addr peer.ip })
from_ip_addr-IsEndpoint peer h = record {
  port_fits = h;
  address_length = length-from_ip_addr peer.ip;
  address_bytes = from_ip_addr-IsByte peer.ip;
}

pub reported_gateway-IsGateway :
    (relay : Relay) (peer : SocketAddr)
    → peer.port < 2 ^ 16
    → IsGateway (reported_gateway relay peer)
reported_gateway-IsGateway relay peer h = ground (arith, from_ip_addr-IsEndpoint peer h)

pub length-response_mac :
    (host : Host) (relay : Relay) (ip : IpAddr) (port nonce : ℕ)
    → IsDigest host
    → length (response_mac host relay ip port nonce) ≡ 6
unfolding response_mac response_mac_with_secret
length-response_mac host relay ip port nonce digest = omega (
  arith,
  length-take 6
      (host.hmac relay.config.secret (from_ip_addr ip ++ (to_be 2 port ++ to_be 4 nonce))),
  digest relay.config.secret (from_ip_addr ip ++ (to_be 2 port ++ to_be 4 nonce)),
)
