-- ===== src/Gateway.antt =====
-- gateway.rs: the gateway's configuration, state, actions and errors. A nonce that the source draws
-- (`random_nonce`, a number of 32 bits other than 0) is an argument of the operation that draws it.
pub mod Discovery
pub mod Handle
pub mod Memberships
pub mod Coherent
pub mod Change
pub mod Delivery
mod Tests
use Prim.Native.String.{String}
use amt.Prelude.{ℕ, not, ◌&&◌, Bool, true, false, Option, none, some, List, ◌==◌}
use amt.Prelude.Bytes.{bytes_eq}
use amt.Address.{IpAddr, v4, v6, SocketAddr, is_multicast, is_unspecified, is_broadcast}
use amt.Ecn.{EcnDecapsulation, EcnError}
use amt.Ip.{IpPacketError}
use amt.Protocol.{MembershipProtocol, GatewayEndpoint, ResponseMac, DecodeError}
use amt.Membership.{MembershipBuildError}
use amt.Query.{QueryValidationError}
use amt.State.{RelayState}

pub record GatewayConfig : Type 0 where
  pub relay : SocketAddr
  pub fallback_relays : List SocketAddr
  pub protocol : MembershipProtocol
  pub ecn : Bool
  pub discovery_nonce : ℕ
  pub request_nonce : ℕ

pub data GatewayPhase : Type 0 where
  discovering awaiting_membership_query established : GatewayPhase

pub record GatewaySession : Type 0 where
  pub response_mac : ResponseMac
  pub request_nonce : ℕ
  pub gateway_endpoint : Option GatewayEndpoint
  pub reported_memberships : Bool

pub record Gateway : Type 0 where
  pub config : GatewayConfig
  pub relay_candidates : List SocketAddr
  pub phase : GatewayPhase
  pub relay_endpoint : Option SocketAddr
  pub session : Option GatewaySession
  pub reception_state : RelayState

pub record GatewaySend : Type 0 where
  pub destination : SocketAddr
  pub datagram : List ℕ

-- The query's interval counts nanoseconds.
pub data GatewayAction : Type 0 where
  send : GatewaySend → GatewayAction
  membership_query :
      (response_mac : ResponseMac) (limit : Bool) (gateway : Option GatewayEndpoint)
      (general_query : List ℕ) (query_interval : ℕ) (previous_teardown : Option GatewaySend)
      → GatewayAction
  multicast_data : (packet : List ℕ) (ecn : Option EcnDecapsulation) → GatewayAction
  dropped_ecn : (ecn : EcnDecapsulation) (packet_len : ℕ) → GatewayAction
  ignored : GatewayAction

pub data GatewayError : Type 0 where
  decode_error : DecodeError → GatewayError
  membership_build : MembershipBuildError → GatewayError
  invalid_general_query : QueryValidationError → GatewayError
  invalid_multicast_packet : IpPacketError → GatewayError
  invalid_ecn : EcnError → GatewayError
  unexpected_discovery_nonce unexpected_request_nonce : (expected actual : ℕ) → GatewayError
  unexpected_peer : (expected actual : SocketAddr) → GatewayError
  unexpected_message_for_state : (message : String) (phase : GatewayPhase) → GatewayError
  invalid_relay_address : IpAddr → GatewayError
  missing_relay_endpoint missing_membership_query missing_gateway_endpoint : GatewayError

unfoldable pub is_usable_unicast : IpAddr → Bool
is_usable_unicast (v4 address) =
    not (is_unspecified (v4 address))
    && (not (is_multicast (v4 address)) && not (is_broadcast (v4 address)))
is_usable_unicast (v6 address) =
    not (is_unspecified (v6 address)) && not (is_multicast (v6 address))

-- The derived equality of `Option<GatewayEndpoint>`.
abbrev pub endpoint_eq : Option GatewayEndpoint → Option GatewayEndpoint → Bool
endpoint_eq none none = true
endpoint_eq (some a) (some b) = a.port == b.port && bytes_eq a.address b.address
endpoint_eq _ _ = false

abbrev pub is_discovering : GatewayPhase → Bool
is_discovering discovering = true
is_discovering _ = false

abbrev pub is_awaiting_phase : GatewayPhase → Bool
is_awaiting_phase awaiting_membership_query = true
is_awaiting_phase _ = false

abbrev pub is_established_phase : GatewayPhase → Bool
is_established_phase established = true
is_established_phase _ = false
