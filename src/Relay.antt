-- ===== src/Relay.antt =====
-- relay.rs: the relay's configuration, state, actions and errors. An instant is a number of
-- nanoseconds, and every reading of the clock within one datagram's handling is one argument `now`.
-- HMAC-SHA256 and the random secrets come from libraries: `Host` holds the digest of a key and a
-- message, and the secret that is drawn is an argument.
pub mod Auth
pub mod Handle
pub mod Next
pub mod Safety
pub mod Rotation
pub mod Tests
use amt.Prelude.{ℕ, ◌-◌, ◌*◌, ◌^◌, Bool, Option, List, if◌then◌else◌}
use amt.Address.{IpAddr, v4, v6, SocketAddr}
use amt.Protocol.{MembershipProtocol, GatewayEndpoint, DecodeError}
use amt.Membership.{MembershipParseError}
use amt.Query.{GeneralQueryConfig}
use amt.State.{RelayState, RelayLimits, StateLimitError, UpstreamSubscription}

pub record Host : Type 0 where
  pub hmac : List ℕ → List ℕ → List ℕ

pub record RelayConfig : Type 0 where
  pub advertise_ipv4 : ℕ
  pub advertise_ipv6 : ℕ
  pub secret : List ℕ
  pub include_gateway_address : Bool
  pub ecn : Bool
  pub limit : Bool
  pub limits : RelayLimits
  pub secret_rotation_interval : Option ℕ
  pub general_query : GeneralQueryConfig

pub record PreviousSecret : Type 0 where
  pub secret : List ℕ
  pub rotated_at : ℕ

pub record Relay : Type 0 where
  pub config : RelayConfig
  pub state : RelayState
  pub previous_secret : Option PreviousSecret
  pub secret_rotated_at : ℕ
  pub gateway_ecn_capabilities : List (SocketAddr × ℕ)

pub data RelayAction : Type 0 where
  send : List ℕ → RelayAction
  accepted_membership_update :
      (protocol : MembershipProtocol) (bytes records_applied : ℕ)
      (upstream_subscriptions : List UpstreamSubscription)
      → RelayAction
  accepted_teardown : (gateway : GatewayEndpoint) (removed : Bool) → RelayAction
  rejected_auth ignored : RelayAction

pub data RelayError : Type 0 where
  decode_error : DecodeError → RelayError
  membership_error : MembershipParseError → RelayError
  resource_limit : StateLimitError → RelayError
  zero_nonce : RelayError

abbrev pub advertised_addr_for : RelayConfig → IpAddr → IpAddr
advertised_addr_for config (v4 peer) = v4 config.advertise_ipv4
advertised_addr_for config (v6 peer) = v6 config.advertise_ipv6

abbrev pub nanoseconds : ℕ → ℕ
nanoseconds seconds = seconds * 10 ^ 9

-- `Instant::elapsed`, which stops at 0.
abbrev pub elapsed : ℕ → ℕ → ℕ
elapsed now instant = now - instant
