-- ===== src/Protocol.antt =====
-- The message types of protocol.rs. A fixed array of octets is a list of bytes, and `IsMessage`
-- says which lists and numbers the Rust types admit.
pub mod Codec
pub mod RoundTrip
pub mod Decoded
pub mod Mac
mod Tests
use Prim.Native.String.{String}
use amt.Prelude.{
  ℕ, ◌+◌, ◌^◌, ◌<◌, ◌≡◌, Bool, true, false, Option, none, some, List, [], ◌∷◌, length, All,
}
use amt.Prelude.Bytes.{IsByte}
use amt.Address.{IpAddr, IsIp}

abbrev pub response_mac_len : ℕ
response_mac_len = 6

abbrev pub gateway_address_len : ℕ
gateway_address_len = 16

abbrev pub gateway_fields_len : ℕ
gateway_fields_len = 18

pub data MessageType : Type 0 where
  relay_discovery relay_advertisement request membership_query : MessageType
  membership_update multicast_data teardown : MessageType

pub data MembershipProtocol : Type 0 where
  igmpv3 mldv2 : MembershipProtocol

abbrev pub ResponseMac : Type 0
ResponseMac = List ℕ

abbrev pub GatewayAddress : Type 0
GatewayAddress = List ℕ

pub record GatewayEndpoint : Type 0 where
  pub port : ℕ
  pub address : GatewayAddress

pub data Message : Type 0 where
  relay_discovery : (discovery_nonce : ℕ) → Message
  relay_advertisement : (discovery_nonce : ℕ) (relay_address : IpAddr) → Message
  request : (request_nonce : ℕ) (protocol : MembershipProtocol) (ecn_capable : Bool) → Message
  membership_query :
      (response_mac : ResponseMac) (request_nonce : ℕ) (limit : Bool)
      (gateway : Option GatewayEndpoint) (general_query : List ℕ)
      → Message
  membership_update : (response_mac : ResponseMac) (request_nonce : ℕ) (update : List ℕ) → Message
  multicast_data : (packet : List ℕ) → Message
  teardown : (response_mac : ResponseMac) (request_nonce : ℕ) (gateway : GatewayEndpoint) → Message

pub data DecodeError : Type 0 where
  unsupported_version unknown_message_type : ℕ → DecodeError
  truncated : (message_type : Option MessageType) (expected_at_least : ℕ) (actual : ℕ) → DecodeError
  invalid_length : (message_type : MessageType) (expected : String) (actual : ℕ) → DecodeError

abbrev pub IsMac : ResponseMac → Type 0
IsMac mac = (length mac ≡ response_mac_len) × All IsByte mac

pub record IsEndpoint (g : GatewayEndpoint) : Type 0 where
  pub port_fits : g.port < 2 ^ 16
  pub address_length : length g.address ≡ gateway_address_len
  pub address_bytes : All IsByte g.address

abbrev pub IsGateway : Option GatewayEndpoint → Type 0
IsGateway none = Unit
IsGateway (some g) = IsEndpoint g

-- What the Rust type of a message guarantees of its fields.
abbrev pub IsMessage : Message → Type 0
IsMessage (relay_discovery nonce) = nonce < 2 ^ 32
IsMessage (relay_advertisement nonce ip) = (nonce < 2 ^ 32) × IsIp ip
IsMessage (request nonce protocol ecn) = nonce < 2 ^ 32
IsMessage (membership_query mac nonce limit gateway query) =
    IsMac mac × (nonce < 2 ^ 32) × IsGateway gateway × All IsByte query
IsMessage (membership_update mac nonce update) = IsMac mac × (nonce < 2 ^ 32) × All IsByte update
IsMessage (multicast_data packet) = All IsByte packet
IsMessage (teardown mac nonce gateway) = IsMac mac × (nonce < 2 ^ 32) × IsEndpoint gateway
