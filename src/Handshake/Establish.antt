-- ===== src/Handshake/Establish.antt =====
-- Two exchanges establish the gateway.
use amt.Prelude.{ℕ, ◌^◌, ◌<◌, ◌≡◌, refl, ◌∙◌, arith, Bool, true, Option, none, some, List, ok}
use amt.Address.{IsIp, SocketAddr, same_family}
use amt.Ecn.{not_ect}
use amt.Query.{query_interval, build_general_query}
use amt.Query.Laws.{IsConfig, build_general_query-validates}
use amt.Gateway.{Gateway, discovering, awaiting_membership_query, is_usable_unicast}
use amt.Gateway.Discovery.{discovery, request_datagram}
use amt.Relay.{Host, Relay, advertised_addr_for}
use amt.Relay.Auth.{
  response_mac, rotate_secret_if_due, remember_gateway_ecn_capability, refusing_new_endpoint,
}
use amt.Handshake.{gateway_datagram, exchange, handshake, IsDigest, IsConnected}
use amt.Handshake.Answers.{
  answer-discovery, answer-request, answer-advertisement, answer-query, reported_gateway,
  reported_gateway-IsGateway, length-response_mac,
}

rotate_secret_if_due-advertised :
    (relay : Relay) (now : ℕ) (drawn : Option (List ℕ)) (peer : SocketAddr)
    → advertised_addr_for (rotate_secret_if_due relay now drawn).config peer.ip
      ≡ advertised_addr_for relay.config peer.ip
unfolding rotate_secret_if_due
rotate_secret_if_due-advertised relay now drawn peer = ground arith

rotate_secret_if_due-general_query :
    (relay : Relay) (now : ℕ) (drawn : Option (List ℕ))
    → (rotate_secret_if_due relay now drawn).config.general_query ≡ relay.config.general_query
unfolding rotate_secret_if_due
rotate_secret_if_due-general_query relay now drawn = ground arith

-- What a handshake needs: a gateway that is discovering, nonces of 32 bits other than 0, and a relay
-- whose advertised address the gateway can use and whose General Query is well formed.
pub record CanConnect (host : Host) (peer : SocketAddr) (g : Gateway) (relay : Relay) : Type 0 where
  pub digest : IsDigest host
  pub phase : g.phase ≡ discovering
  pub unknown : g.relay_endpoint ≡ none
  pub discovery_nonce_drawn : 0 < g.config.discovery_nonce
  pub discovery_nonce_fits : g.config.discovery_nonce < 2 ^ 32
  pub request_nonce_fits : g.config.request_nonce < 2 ^ 32
  pub port_fits : peer.port < 2 ^ 16
  pub advertised : IsIp (advertised_addr_for relay.config peer.ip)
  pub usable : is_usable_unicast (advertised_addr_for relay.config peer.ip) ≡ true
  pub family : same_family (advertised_addr_for relay.config peer.ip) g.config.relay.ip ≡ true
  pub query : IsConfig relay.config.general_query

-- The gateway that awaits the relay's query.
abbrev awaiting : Gateway → Relay → SocketAddr → Gateway
awaiting g relay peer = record g {
  relay_endpoint =
      some (record { ip = advertised_addr_for relay.config peer.ip; port = g.config.relay.port });
  phase = awaiting_membership_query;
}

first_exchange :
    (host : Host) (first : ℕ) (drawn : Option (List ℕ)) (peer : SocketAddr) (g : Gateway)
    (relay : Relay)
    → CanConnect host peer g relay
    → exchange host first drawn peer g.config.relay g relay (gateway_datagram (ok (discovery g)))
      ≡ (awaiting g relay peer, rotate_secret_if_due relay first drawn, request_datagram g.config)
unfolding exchange discovery
first_exchange host first drawn peer g relay c =
    rw
      (
        answer-discovery host relay first drawn peer g.config.discovery_nonce
            c.discovery_nonce_drawn c.discovery_nonce_fits,
        rotate_secret_if_due-advertised relay first drawn peer,
        answer-advertisement g (advertised_addr_for relay.config peer.ip) not_ect c.phase c.unknown
            c.discovery_nonce_fits c.advertised c.usable c.family,
      )
      refl

-- The relay that has answered the request.
abbrev asked : Relay → ℕ → Option (List ℕ) → SocketAddr → Gateway → Relay
asked relay now drawn peer g =
    remember_gateway_ecn_capability (rotate_secret_if_due relay now drawn) now peer g.config.ecn

remember-general_query :
    (relay : Relay) (now : ℕ) (peer : SocketAddr) (ecn : Bool)
    → (remember_gateway_ecn_capability relay now peer ecn).config.general_query
      ≡ relay.config.general_query
unfolding remember_gateway_ecn_capability
remember-general_query relay now peer ecn = refl

asked-general_query :
    (relay : Relay) (now : ℕ) (drawn : Option (List ℕ)) (peer : SocketAddr) (g : Gateway)
    → (asked relay now drawn peer g).config.general_query ≡ relay.config.general_query
asked-general_query relay now drawn peer g =
    remember-general_query (rotate_secret_if_due relay now drawn) now peer g.config.ecn
    ∙ rotate_secret_if_due-general_query relay now drawn

rotate_secret_if_due-state :
    (relay : Relay) (now : ℕ) (drawn : Option (List ℕ))
    → (rotate_secret_if_due relay now drawn).state ≡ relay.state
unfolding rotate_secret_if_due
rotate_secret_if_due-state relay now drawn = ground arith

asked-state :
    (relay : Relay) (now : ℕ) (drawn : Option (List ℕ)) (peer : SocketAddr) (g : Gateway)
    → (asked relay now drawn peer g).state ≡ relay.state
unfolding remember_gateway_ecn_capability rotate_secret_if_due
asked-state relay now drawn peer g = ground arith

second_exchange :
    (host : Host) (second : ℕ) (drawn : Option (List ℕ)) (peer relay_addr : SocketAddr)
    (g : Gateway) (relay : Relay)
    → IsDigest host
    → g.phase ≡ awaiting_membership_query
    → g.relay_endpoint ≡ some relay_addr
    → g.config.request_nonce < 2 ^ 32
    → peer.port < 2 ^ 16
    → IsConfig relay.config.general_query
    → (let (g', relay', rest) =
          exchange host second drawn peer relay_addr g relay (request_datagram g.config) in
        IsConnected host peer g' relay' × (relay'.state ≡ relay.state))
unfolding exchange
second_exchange host second drawn peer relay_addr g relay digest phase known fits port config =
    let relay' = asked relay second drawn peer g in
    let mac = response_mac host relay' peer.ip peer.port g.config.request_nonce in
    let gateway = reported_gateway relay' peer in
    let built = build_general_query g.config.protocol relay'.config.general_query in
    let limit = refusing_new_endpoint relay' peer.ip in
    let config' : IsConfig relay'.config.general_query =
      rw (asked-general_query relay second drawn peer g) config in
    let answer =
      answer-query g relay_addr mac limit gateway built not_ect
        (query_interval relay'.config.general_query.query_interval_code) phase known
        (length-response_mac host relay' peer.ip peer.port g.config.request_nonce digest) fits
        (reported_gateway-IsGateway relay' peer port)
        (build_general_query-validates g.config.protocol relay'.config.general_query config') in
    rw
      (
        answer-request host relay second drawn peer g.config.request_nonce g.config.protocol
            g.config.ecn fits,
        answer,
      )
      (
        record {
          relay_addr = relay_addr;
          known = known;
          session = _;
          held = refl;
          mac = refl;
          phase = refl;
        },
        asked-state relay second drawn peer g,
      )

-- A gateway that is discovering is established after two exchanges with a relay, whatever the
-- clocks and drawn secrets, where the nonces fit and the relay advertises an address that the
-- gateway can use: its session holds the MAC that the relay then gives out for it. The relay's
-- membership state is as it was.
pub handshake-IsConnected :
    (host : Host) (first second : ℕ) (drawn drawn' : Option (List ℕ)) (peer : SocketAddr)
    (g : Gateway) (relay : Relay)
    → CanConnect host peer g relay
    → (let (g', relay') = handshake host first second drawn drawn' peer g relay in
        IsConnected host peer g' relay' × (relay'.state ≡ relay.state))
unfolding handshake
handshake-IsConnected host first second drawn drawn' peer g relay c =
    let relay' = rotate_secret_if_due relay first drawn in
    let config' : IsConfig relay'.config.general_query =
      rw (rotate_secret_if_due-general_query relay first drawn) c.query in
    let (connected, same) =
      second_exchange host second drawn' peer _ (awaiting g relay peer) relay' c.digest refl refl
        c.request_nonce_fits c.port_fits config' in
    rw (handshake, first_exchange host first drawn peer g relay c)
      (connected, same ∙ rotate_secret_if_due-state relay first drawn)
