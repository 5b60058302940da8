-- ===== src/Membership.antt =====
-- membership.rs: what a membership report says, and the errors of building and parsing one. A text that
-- an error carries in the source is a string here.
pub mod Checks
pub mod Build
pub mod Parse
pub mod Records
pub mod Built
pub mod Packets
pub mod RoundTrip
pub mod Parsed
pub mod Tests
use Prim.Native.String.{String}
use amt.Prelude.{ℕ, List}
use amt.Address.{IpAddr}
use amt.Protocol.{MembershipProtocol}

pub data MembershipRecordKind : Type 0 where
  mode_is_include mode_is_exclude change_to_include change_to_exclude : MembershipRecordKind
  allow_new_sources block_old_sources legacy_report legacy_leave : MembershipRecordKind

pub record MembershipRecord : Type 0 where
  pub kind : MembershipRecordKind
  pub group : IpAddr
  pub sources : List IpAddr

pub record MembershipReport : Type 0 where
  pub protocol : MembershipProtocol
  pub records : List MembershipRecord

pub record MembershipParseLimits : Type 0 where
  pub max_records : ℕ
  pub max_sources_per_record : ℕ

pub data MembershipParseError : Type 0 where
  truncated : (context : String) (expected_at_least actual : ℕ) → MembershipParseError
  invalid_ip_version : ℕ → MembershipParseError
  invalid_ipv4_header_length : ℕ → MembershipParseError
  invalid_total_length : (total_length available : ℕ) → MembershipParseError
  invalid_message_length : (context : String) (expected actual : ℕ) → MembershipParseError
  invalid_protocol : (expected actual : ℕ) → MembershipParseError
  invalid_checksum : String → MembershipParseError
  invalid_hop_limit : ℕ → MembershipParseError
  fragmented_packet missing_ipv4_router_alert missing_ipv6_router_alert : MembershipParseError
  invalid_destination invalid_source_address : IpAddr → MembershipParseError
  resource_limit : (resource : String) (requested limit : ℕ) → MembershipParseError
  unsupported_membership_message unknown_record_type : ℕ → MembershipParseError
  invalid_multicast_group : IpAddr → MembershipParseError
  mixed_address_families : MembershipParseError

pub data MembershipBuildError : Type 0 where
  empty_report : MembershipBuildError
  too_many_records too_many_sources packet_too_long : ℕ → MembershipBuildError
  unsupported_record_kind : MembershipRecordKind → MembershipBuildError
  invalid_multicast_group : IpAddr → MembershipBuildError
  protocol_address_family_mismatch :
      (protocol : MembershipProtocol) (group : IpAddr) → MembershipBuildError
  mixed_address_families : MembershipBuildError
