-- ===== src/State.antt =====
-- The types of state.rs. The maps and sets are those of `Collections`.
pub mod Interest
pub mod Asked
pub mod Index
pub mod Ops
pub mod Coverage
pub mod Aggregate
pub mod Forwarding
pub mod Rollback
pub mod Bounds
pub mod Valid
pub mod Preview
mod Tests
use Prim.Native.String.{String}
use amt.Prelude.{
  ℕ, ◌≡◌, refl, arith, Bool, true, false, ◌↔◌, ◌&&◌, ◌||◌, Option, none, some, List, [], ℕ_discrete,
}
use amt.Address.{IpAddr, SocketAddr, ip_eq, ip_lt}
use amt.Collections.Key.{Key, ip_eq_iff, ip_lt_irrefl, ip_lt_trans, ip_lt_total}

pub data FilterMode : Type 0 where
  include exclude : FilterMode

pub record GroupInterest : Type 0 where
  pub mode : FilterMode
  pub sources : List IpAddr

abbrev pub Groups : Type 0
Groups = List (IpAddr × GroupInterest)

pub record EndpointState : Type 0 where
  pub groups : Groups

abbrev pub Endpoints : Type 0
Endpoints = List (SocketAddr × EndpointState)

-- The derived equalities, `!=` on options among them.
unfoldable pub interest_discrete : Discrete (Option GroupInterest)
unfolding ℕ_discrete
interest_discrete = hlevel ℕ_discrete

unfoldable pub endpoint_discrete : Discrete EndpointState
unfolding ℕ_discrete
endpoint_discrete = hlevel ℕ_discrete

pub record UpstreamSubscription : Type 0 where
  pub group : IpAddr
  pub source : Option IpAddr

abbrev source_eq : Option IpAddr → Option IpAddr → Bool
source_eq none none = true
source_eq (some a) (some b) = ip_eq a b
source_eq _ _ = false

abbrev source_lt : Option IpAddr → Option IpAddr → Bool
source_lt none (some b) = true
source_lt (some a) (some b) = ip_lt a b
source_lt _ none = false

abbrev pub subscription_eq : UpstreamSubscription → UpstreamSubscription → Bool
subscription_eq a b = ip_eq a.group b.group && source_eq a.source b.source

abbrev pub subscription_lt : UpstreamSubscription → UpstreamSubscription → Bool
subscription_lt a b =
    ip_lt a.group b.group || (ip_eq a.group b.group && source_lt a.source b.source)

pub subscription_eq_iff : (a b : UpstreamSubscription) → (subscription_eq a b ≡ true) ↔ (a ≡ b)
subscription_eq_iff a b = ground arith

pub subscription_lt_irrefl : (a : UpstreamSubscription) → subscription_lt a a ≡ false
subscription_lt_irrefl a = ground arith

pub subscription_lt_trans :
    (a b c : UpstreamSubscription)
    → subscription_lt a b ≡ true
    → subscription_lt b c ≡ true
    → subscription_lt a c ≡ true
subscription_lt_trans a b c h k = ground arith

pub subscription_lt_total :
    (a b : UpstreamSubscription)
    → subscription_eq a b ≡ false
    → subscription_lt a b ≡ false
    → subscription_lt b a ≡ true
subscription_lt_total a b h k = ground arith

instance abbrev pub subscription_key : Key UpstreamSubscription
subscription_key = record {
  eq = subscription_eq;
  lt = subscription_lt;
  eq_iff = subscription_eq_iff;
  lt_irrefl = subscription_lt_irrefl;
  lt_trans = subscription_lt_trans;
  lt_total = subscription_lt_total;
}

pub record RelayLimits : Type 0 where
  pub max_endpoints : ℕ
  pub max_endpoints_per_ip : ℕ
  pub max_groups_per_endpoint : ℕ
  pub max_sources_per_group : ℕ
  pub max_total_endpoint_groups : ℕ
  pub max_total_sources : ℕ
  pub max_upstream_subscriptions : ℕ
  pub max_records_per_report : ℕ

pub record StateLimitError : Type 0 where
  pub resource : String
  pub requested : ℕ
  pub limit : ℕ

pub record RelayState : Type 0 where
  pub endpoints : Endpoints
  pub forwarding : List (IpAddr × List SocketAddr)
  pub aggregate : Groups
  pub subscriptions : List UpstreamSubscription
  pub total_endpoint_groups : ℕ
  pub total_sources : ℕ
