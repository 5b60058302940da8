-- ===== src/Pmtu.antt =====
-- pmtu.rs: feedback to the source of a multicast packet that is too large for the tunnel. An instant
-- is a number of nanoseconds.
pub mod Limiter
pub mod Feedback
pub mod Sender
pub mod Built
mod Tests
use amt.Prelude.{ℕ, ◌≡◌, arith, Bool, true, false, ◌↔◌, ◌&&◌, ◌||◌, List, []}
use amt.Address.{IpAddr, ip_eq, ip_lt}
use amt.Collections.Key.{Key, ip_eq_iff, ip_lt_irrefl, ip_lt_trans, ip_lt_total}
use amt.Ip.{IpPacketError}

-- The keys of the limiter's map: a source and a group.
pub record Flow : Type 0 where
  pub source : IpAddr
  pub group : IpAddr

abbrev pub flow_eq : Flow → Flow → Bool
flow_eq a b = ip_eq a.source b.source && ip_eq a.group b.group

abbrev pub flow_lt : Flow → Flow → Bool
flow_lt a b = ip_lt a.source b.source || (ip_eq a.source b.source && ip_lt a.group b.group)

pub flow_eq_iff : (a b : Flow) → (flow_eq a b ≡ true) ↔ (a ≡ b)
flow_eq_iff a b = ground (arith, ip_eq_iff a.source b.source, ip_eq_iff a.group b.group)

pub flow_lt_irrefl : (a : Flow) → flow_lt a a ≡ false
flow_lt_irrefl a = ground (arith, ip_lt_irrefl a.source, ip_lt_irrefl a.group)

pub flow_lt_trans : (a b c : Flow) → flow_lt a b ≡ true → flow_lt b c ≡ true → flow_lt a c ≡ true
flow_lt_trans a b c h k = ground arith

pub flow_lt_total : (a b : Flow) → flow_eq a b ≡ false → flow_lt a b ≡ false → flow_lt b a ≡ true
flow_lt_total a b h k = ground arith

instance abbrev pub flow_key : Key Flow
flow_key = record {
  eq = flow_eq;
  lt = flow_lt;
  eq_iff = flow_eq_iff;
  lt_irrefl = flow_lt_irrefl;
  lt_trans = flow_lt_trans;
  lt_total = flow_lt_total;
}

pub record FeedbackRateLimiter : Type 0 where
  pub last_feedback : List (Flow × ℕ)
  pub expirations : List (Flow × ℕ)
  pub minimum_interval : ℕ
  pub max_tracked_flows : ℕ

pub record PmtuFeedbackSender : Type 0 where
  pub local_address : IpAddr
  pub limiter : FeedbackRateLimiter

pub data PmtuFeedbackOutcome : Type 0 where
  sent : (bytes_sent : ℕ) → PmtuFeedbackOutcome
  rate_limited suppressed address_family_unavailable : PmtuFeedbackOutcome

-- An error of the raw socket's library carries nothing here.
pub data PmtuFeedbackError : Type 0 where
  invalid_packet : IpPacketError → PmtuFeedbackError
  invalid_local_address : IpAddr → PmtuFeedbackError
  invalid_mtu : ℕ → PmtuFeedbackError
  transport : PmtuFeedbackError
