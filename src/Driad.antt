-- ===== src/Driad.antt =====
-- driad.rs: the records of DNS that name a relay, and the errors of asking for them. A string of the
-- source is the list of its bytes, and a lifetime is a number of seconds.
pub mod Limiter
pub mod Names
pub mod Response
pub mod Answers
pub mod Labels
pub mod Query
mod Tests
use Prim.Native.String.{String}
use amt.Prelude.{ℕ, Bool, Option, List}
use amt.Address.{IpAddr}

pub data AmtRelayTarget : Type 0 where
  no_relay : AmtRelayTarget
  ipv4 ipv6 : ℕ → AmtRelayTarget
  name : List ℕ → AmtRelayTarget

pub record AmtRelayRecord : Type 0 where
  pub precedence : ℕ
  pub discovery_optional : Bool
  pub target : AmtRelayTarget

pub record Timed {ℓ} (T : Type ℓ) : Type ℓ where
  pub value : T
  pub ttl : ℕ

pub record DnsAmtRelayResponse : Type 0 where
  pub records : List (Timed AmtRelayRecord)
  pub aliases : List (Timed (List ℕ))

pub record DnsAddressResponse : Type 0 where
  pub addresses : List (Timed IpAddr)
  pub alias : Option (Timed (List ℕ))

-- The errors of reading and writing DNS messages.
pub data DriadError : Type 0 where
  truncated : String → DriadError
  invalid_dns_name : List ℕ → DriadError
  invalid_dns_pointer : DriadError
  invalid_response_id : (expected actual : ℕ) → DriadError
  dns_response_code invalid_dns_flags : ℕ → DriadError
  invalid_question : DriadError
  invalid_relay_type : ℕ → DriadError
  invalid_relay_length : (relay_type expected actual : ℕ) → DriadError
  invalid_relay_name : DriadError
