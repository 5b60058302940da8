-- ===== src/Handshake.antt =====
-- A gateway (gateway.rs) and a relay (relay.rs) that exchange datagrams over a network that delivers
-- them: `exchange` hands the gateway's datagram to the relay and the relay's answer to the gateway.
pub mod Answers
pub mod Establish
pub mod Update
mod Tests
use amt.Prelude.{ℕ, ◌≡◌, Option, none, some, List, [], Result, ok, err, length}
use amt.Address.{SocketAddr}
use amt.Ecn.{not_ect}
use amt.Gateway.{Gateway, GatewayAction, GatewayError, GatewaySession, established}
use amt.Gateway.Discovery.{discovery}
use amt.Gateway.Handle.{handle_datagram_with_ecn, expected_peer}
use amt.Relay.{Host, Relay, RelayAction, RelayError}
use amt.Relay.Auth.{response_mac}
use amt.Relay.Handle.{handle_datagram}

-- The datagram that is sent, or nothing.
abbrev pub relay_datagram : Result RelayError RelayAction → List ℕ
relay_datagram (ok (RelayAction.send datagram)) = datagram
relay_datagram _ = []

abbrev pub gateway_datagram : Result GatewayError GatewayAction → List ℕ
gateway_datagram (ok (GatewayAction.send sent)) = sent.datagram
gateway_datagram _ = []

-- `peer` is the gateway as the relay sees it, and `relay_addr` the relay as the gateway sees it. The
-- result holds what the gateway sends next.
unfoldable pub exchange :
    Host
    → ℕ
    → Option (List ℕ)
    → SocketAddr
    → SocketAddr
    → Gateway
    → Relay
    → List ℕ
    → Gateway × Relay × List ℕ
exchange host now drawn peer relay_addr g relay datagram =
    let (relay', answer) = handle_datagram host relay now drawn peer datagram in
    let (g', action) = handle_datagram_with_ecn g relay_addr (relay_datagram answer) not_ect in
    (g', relay', gateway_datagram action)

-- The discovery and the request that it leads to, at two instants.
unfoldable pub handshake :
    Host
    → ℕ
    → ℕ
    → Option (List ℕ)
    → Option (List ℕ)
    → SocketAddr
    → Gateway
    → Relay
    → Gateway × Relay
handshake host first second drawn drawn' peer g relay =
    let (g', relay', request) =
      exchange host first drawn peer g.config.relay g relay (gateway_datagram (ok (discovery g))) in
    let (g'', relay'', rest) =
      exchange host second drawn' peer (expected_peer g') g' relay' request in
    (g'', relay'')

-- HMAC-SHA256 gives 32 bytes.
abbrev pub IsDigest : Host → Type 0
IsDigest host = (key message : List ℕ) → length (host.hmac key message) ≡ 32

-- The gateway is established, and its session holds the MAC that the relay gives out for it.
pub record IsConnected (host : Host) (peer : SocketAddr) (g : Gateway) (relay : Relay)
    : Type 0 where
  pub relay_addr : SocketAddr
  pub known : g.relay_endpoint ≡ some relay_addr
  pub session : GatewaySession
  pub held : g.session ≡ some session
  pub mac : session.response_mac ≡ response_mac host relay peer.ip peer.port session.request_nonce
  pub phase : g.phase ≡ established
