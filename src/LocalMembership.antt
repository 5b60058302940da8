-- ===== src/LocalMembership.antt =====
-- local_membership.rs: the gateway's view of the reports on its own network. The raw socket of the
-- multicast library is not modelled: what it receives is a list, the earliest first. An instant is a
-- number of nanoseconds.
pub mod Delta
pub mod Manager
pub mod Reports
pub mod Expiry
mod Tests
use amt.Prelude.{ℕ, Bool, true, false, Option, List, ◌*◌, ◌^◌}
use amt.Address.{IpAddr, v4, v6}
use amt.Protocol.{MembershipProtocol, igmpv3, mldv2}
use amt.Membership.{MembershipParseError}
use amt.State.{Groups, RelayState, RelayLimits, StateLimitError, UpstreamSubscription}

pub record LocalMembershipConfig : Type 0 where
  pub protocol : MembershipProtocol
  pub interface : Option IpAddr
  pub interface_index : Option ℕ
  pub query_interval : Option ℕ
  pub reporter_timeout : ℕ

pub record LocalMembershipManager : Type 0 where
  pub config : LocalMembershipConfig
  pub state : RelayState
  pub advertised : Groups
  pub reporter_last_seen : List (IpAddr × ℕ)
  pub limits : RelayLimits

pub record LocalMembershipEvent : Type 0 where
  pub reporter : IpAddr
  pub records_received : ℕ
  pub active_subscriptions : List UpstreamSubscription

-- An error of the multicast library carries nothing here.
pub data LocalMembershipError : Type 0 where
  mcrx : LocalMembershipError
  parse : MembershipParseError → LocalMembershipError
  state_limit : StateLimitError → LocalMembershipError

abbrev pub is_parse_error : LocalMembershipError → Bool
is_parse_error mcrx = false
is_parse_error (parse e) = true
is_parse_error (state_limit e) = true

pub data ReportRecordMode : Type 0 where
  state change : ReportRecordMode

-- What the library receives: a datagram, or an error.
pub data Received : Type 0 where
  datagram : List ℕ → Received
  failed : Received

unfoldable pub group_matches_protocol : MembershipProtocol → IpAddr → Bool
group_matches_protocol igmpv3 (v4 group) = true
group_matches_protocol mldv2 (v6 group) = true
group_matches_protocol _ _ = false
