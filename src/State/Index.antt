-- ===== src/State/Index.antt =====
-- `GroupSummary` and `RelayState::rebuild_indexes`: the indexes as a function of the endpoints.
use amt.Prelude.{ℕ, ◌+◌, Option, none, some, List, [], ◌∷◌, map, length, if◌then◌else◌}
use amt.Address.{IpAddr, SocketAddr}
use amt.Collections.BTreeSet
use amt.Collections.BTreeMap
use amt.Collections.Key.{ip_key, socket_key}
use amt.State.{
  FilterMode, include, exclude, GroupInterest, Groups, EndpointState, Endpoints,
  UpstreamSubscription, subscription_key, RelayState,
}
use amt.State.Interest.{include_sources as include_of, exclude_sources as exclude_of, is_empty}

pub record GroupSummary : Type 0 where
  pub include_sources : List IpAddr
  pub exclude_sources : Option (List IpAddr)

abbrev pub empty_summary : GroupSummary
empty_summary = record { include_sources = []; exclude_sources = none }

-- An exclude list keeps the sources that every excluding endpoint leaves out.
abbrev pub excluded : Option (List IpAddr) → List IpAddr → List IpAddr
excluded none sources = sources
excluded (some kept) sources = BTreeSet.retain (λ source. BTreeSet.contains source sources) kept

abbrev pub apply_mode : FilterMode → GroupSummary → List IpAddr → GroupSummary
apply_mode include s sources = record s {
  include_sources = BTreeSet.extend s.include_sources sources;
}
apply_mode exclude s sources = record s {
  exclude_sources = some (excluded s.exclude_sources sources);
}

unfoldable pub apply : GroupSummary → GroupInterest → GroupSummary
apply s i = apply_mode i.mode s i.sources

abbrev pub interest_of : Option (List IpAddr) → List IpAddr → Option GroupInterest
interest_of (some kept) included = some (exclude_of (BTreeSet.remove_each kept included))
interest_of none included = if is_empty included then none else some (include_of included)

unfoldable pub into_interest : GroupSummary → Option GroupInterest
into_interest s = interest_of s.exclude_sources s.include_sources

-- What the loop over the endpoints accumulates.
pub record Index : Type 0 where
  pub forwarding : List (IpAddr × List SocketAddr)
  pub groups : List (IpAddr × GroupSummary)
  pub total_endpoint_groups : ℕ
  pub total_sources : ℕ

abbrev pub summary_or_empty : Option GroupSummary → GroupSummary
summary_or_empty none = empty_summary
summary_or_empty (some s) = s

abbrev pub endpoints_or_empty : Option (List SocketAddr) → List SocketAddr
endpoints_or_empty none = []
endpoints_or_empty (some s) = s

unfoldable pub index_group : SocketAddr → Index → IpAddr → GroupInterest → Index
index_group endpoint ix group i = record ix {
  forwarding =
      BTreeMap.insert group
        (BTreeSet.insert endpoint (endpoints_or_empty (BTreeMap.get group ix.forwarding)))
        ix.forwarding;
  groups =
      BTreeMap.insert group (apply (summary_or_empty (BTreeMap.get group ix.groups)) i) ix.groups;
  total_sources = ix.total_sources + length i.sources;
}

unfoldable pub index_groups : SocketAddr → Index → Groups → Index
index_groups endpoint ix [] = ix
index_groups endpoint ix ((group, i) ∷ rest) =
    index_groups endpoint (index_group endpoint ix group i) rest

unfoldable pub index_endpoint : SocketAddr → Index → EndpointState → Index
index_endpoint endpoint ix st =
    index_groups endpoint
      (record ix { total_endpoint_groups = ix.total_endpoint_groups + length st.groups }) st.groups

unfoldable pub index_endpoints : Index → Endpoints → Index
index_endpoints ix [] = ix
index_endpoints ix ((endpoint, st) ∷ rest) = index_endpoints (index_endpoint endpoint ix st) rest

abbrev pub empty_index : Index
empty_index = record { forwarding = []; groups = []; total_endpoint_groups = 0; total_sources = 0 }

abbrev pub prepend_some : IpAddr → Option GroupInterest → Groups → Groups
prepend_some group none rest = rest
prepend_some group (some i) rest = (group, i) ∷ rest

-- `filter_map`; the summaries come in key order, so that collecting them keeps the list.
unfoldable pub aggregate_of : List (IpAddr × GroupSummary) → Groups
aggregate_of [] = []
aggregate_of ((group, s) ∷ rest) = prepend_some group (into_interest s) (aggregate_of rest)

unfoldable pub subscribe :
    FilterMode → IpAddr → List IpAddr → List UpstreamSubscription → List UpstreamSubscription
subscribe exclude group sources subs =
    BTreeSet.insert (record { group = group; source = none }) subs
subscribe include group sources subs =
    BTreeSet.extend subs (map (λ source. record { group = group; source = some source }) sources)

unfoldable pub subscriptions_of : List UpstreamSubscription → Groups → List UpstreamSubscription
unfolding subscribe
subscriptions_of subs [] = subs
subscriptions_of subs ((group, i) ∷ rest) =
    subscriptions_of (subscribe i.mode group i.sources subs) rest

unfoldable pub rebuild_indexes : RelayState → RelayState
rebuild_indexes s =
    let ix = index_endpoints empty_index s.endpoints in
    record s {
      forwarding = ix.forwarding;
      aggregate = aggregate_of ix.groups;
      subscriptions = subscriptions_of [] (aggregate_of ix.groups);
      total_endpoint_groups = ix.total_endpoint_groups;
      total_sources = ix.total_sources;
    }
