-- ===== src/State/Ops.antt =====
-- The operations of `RelayState`. A method that changes the state returns the new one.
use mathlib.Core.Logic.{ite}
use Prim.Native.Nat.{max}
use Prim.Native.String.{String}
use amt.Prelude.{
  ℕ, ◌+◌, ◌-◌, ◌/◌, Bool, true, false, not, ◌&&◌, ◌||◌, Option, none, some, List, [], ◌∷◌, Result,
  ok, err, ◌>>=◌, ◌>>◌, length, if◌then◌else◌, leb, ◌==◌,
}
use amt.Address.{IpAddr, SocketAddr, ip_eq}
use amt.Collections.BTreeSet
use amt.Collections.BTreeMap
use amt.Collections.Key.{ip_key, socket_key}
use amt.Membership.{MembershipRecord, MembershipReport}
use amt.State.{
  FilterMode, include, exclude, GroupInterest, Groups, EndpointState, Endpoints, endpoint_discrete,
  RelayState, RelayLimits, StateLimitError,
}
use amt.State.Interest.{apply_record, interest_wants, wants_source, is_empty}
use amt.State.Index.{rebuild_indexes, endpoints_or_empty}

abbrev pub empty_endpoint : EndpointState
empty_endpoint = record { groups = [] }

abbrev pub endpoint_or_empty : Option EndpointState → EndpointState
endpoint_or_empty none = empty_endpoint
endpoint_or_empty (some st) = st

-- `RelayState::default`.
abbrev pub empty_state : RelayState
empty_state = record {
  endpoints = [];
  forwarding = [];
  aggregate = [];
  subscriptions = [];
  total_endpoint_groups = 0;
  total_sources = 0;
}

abbrev pub count : Bool → ℕ
count false = 0
count true = 1

-- Applies the records in order, and counts those that changed something.
unfoldable pub apply_records : EndpointState → List MembershipRecord → EndpointState × ℕ
unfolding apply_record
apply_records st [] = (st, 0)
apply_records st (r ∷ rest) =
    let (st', changed) = apply_record st r in
    let (st'', applied) = apply_records st' rest in (st'', count changed + applied)

abbrev pub is_some {ℓ} : {A : Type ℓ} → Option A → Bool
is_some none = false
is_some (some a) = true

-- `current != Some(&candidate)`.
unfoldable pub endpoint_differs : Option EndpointState → EndpointState → Bool
unfolding endpoint_discrete
endpoint_differs none candidate = true
endpoint_differs (some st) candidate = ite (endpoint_discrete st candidate) false true

unfoldable pub preview_report : RelayState → SocketAddr → MembershipReport → ℕ × Bool
unfolding apply_records endpoint_differs
preview_report s endpoint report =
    let current = BTreeMap.get endpoint s.endpoints in
    let (candidate, applied) = apply_records (endpoint_or_empty current) report.records in
    if is_empty report.records then (0, false) else (
      applied,
      (if is_empty candidate.groups then is_some current else endpoint_differs current candidate),
    )

-- The endpoints after a report that is not empty.
unfoldable pub endpoints_after : Endpoints → SocketAddr → List MembershipRecord → Endpoints
unfolding apply_records
endpoints_after endpoints endpoint records =
    let st = (apply_records (endpoint_or_empty (BTreeMap.get endpoint endpoints)) records).0 in
    let entered = BTreeMap.insert endpoint st endpoints in
    if is_empty st.groups then BTreeMap.remove endpoint entered else entered

unfoldable pub apply_report : RelayState → SocketAddr → MembershipReport → RelayState × ℕ
unfolding apply_records endpoints_after rebuild_indexes
apply_report s endpoint report =
    let current = endpoint_or_empty (BTreeMap.get endpoint s.endpoints) in
    if is_empty report.records then (s, 0) else (
      rebuild_indexes
          (record s { endpoints = endpoints_after s.endpoints endpoint report.records }),
      (apply_records current report.records).1,
    )

unfoldable pub check_limit : String → ℕ → ℕ → Result StateLimitError (Unit {0})
check_limit resource requested limit =
    if leb requested limit
    then ok tt
    else err (record { resource = resource; requested = requested; limit = limit })

unfoldable pub count_ip : IpAddr → Endpoints → ℕ
count_ip address [] = 0
count_ip address ((endpoint, st) ∷ rest) = count (ip_eq endpoint.ip address) + count_ip address rest

unfoldable pub endpoint_count_for_ip : RelayState → IpAddr → ℕ
unfolding count_ip
endpoint_count_for_ip s address = count_ip address s.endpoints

unfoldable pub near_limit : ℕ → ℕ → Bool
near_limit value limit = not (limit == 0) && leb (limit - limit / 10) value

unfoldable pub is_ip_near_endpoint_limit : RelayState → IpAddr → ℕ → Bool
unfolding endpoint_count_for_ip near_limit
is_ip_near_endpoint_limit s address limit = near_limit (endpoint_count_for_ip s address) limit

unfoldable pub is_near_limits : RelayState → RelayLimits → Bool
unfolding near_limit
is_near_limits s limits =
    near_limit (length s.endpoints) limits.max_endpoints
    || near_limit s.total_endpoint_groups limits.max_total_endpoint_groups
    || near_limit s.total_sources limits.max_total_sources
    || near_limit (length s.subscriptions) limits.max_upstream_subscriptions

unfoldable pub contains_endpoint : RelayState → SocketAddr → Bool
contains_endpoint s endpoint = is_some (BTreeMap.get endpoint s.endpoints)

unfoldable pub remove_endpoint : RelayState → SocketAddr → RelayState × Bool
unfolding rebuild_indexes
remove_endpoint s endpoint =
    let removed = is_some (BTreeMap.get endpoint s.endpoints) in
    let s' = record s { endpoints = BTreeMap.remove endpoint s.endpoints } in
    ((if removed then rebuild_indexes s' else s'), removed)

abbrev pub group_of : Option EndpointState → IpAddr → Option GroupInterest
group_of none group = none
group_of (some st) group = BTreeMap.get group st.groups

unfoldable pub endpoint_interest : RelayState → SocketAddr → IpAddr → Option GroupInterest
endpoint_interest s endpoint group = group_of (BTreeMap.get endpoint s.endpoints) group

unfoldable pub endpoint_has_interests : RelayState → SocketAddr → Bool
endpoint_has_interests s endpoint =
    not (is_empty (endpoint_or_empty (BTreeMap.get endpoint s.endpoints)).groups)

unfoldable pub matching_endpoints : RelayState → IpAddr → IpAddr → List SocketAddr
unfolding endpoint_interest wants_source
matching_endpoints s source group =
    BTreeSet.retain (λ endpoint. interest_wants (endpoint_interest s endpoint group) source)
      (endpoints_or_empty (BTreeMap.get group s.forwarding))

abbrev pub mode_includes : FilterMode → Bool
mode_includes include = true
mode_includes exclude = false

abbrev pub ssm_wants : Option GroupInterest → IpAddr → Bool
ssm_wants none source = false
ssm_wants (some i) source = mode_includes i.mode && BTreeSet.contains source i.sources

unfoldable pub has_ssm_interest : RelayState → IpAddr → IpAddr → Bool
unfolding endpoint_interest
has_ssm_interest s source group = not (
    is_empty (
      BTreeSet.retain (λ endpoint. ssm_wants (endpoint_interest s endpoint group) source)
        (endpoints_or_empty (BTreeMap.get group s.forwarding))))

-- The largest source list among the groups, 0 if there is none.
unfoldable pub most_sources : Groups → ℕ
most_sources [] = 0
most_sources ((group, i) ∷ rest) = max (length i.sources) (most_sources rest)

-- The sources of each record against their limit, first offender first.
unfoldable pub check_records : List MembershipRecord → ℕ → Result StateLimitError (Unit {0})
unfolding check_limit
check_records [] limit = ok tt
check_records (r ∷ rest) limit =
    check_limit "sources per group" (length r.sources) limit >>= λ _. check_records rest limit

-- The limits that hold of the state after the report.
unfoldable pub check_state :
    RelayState → SocketAddr → RelayLimits → Result StateLimitError (Unit {0})
unfolding check_limit endpoint_count_for_ip most_sources
check_state s endpoint limits = do
  let groups = (endpoint_or_empty (BTreeMap.get endpoint s.endpoints)).groups
  check_limit "endpoints" (length s.endpoints) limits.max_endpoints
  check_limit "endpoints per source IP" (endpoint_count_for_ip s endpoint.ip)
      limits.max_endpoints_per_ip
  check_limit "groups per endpoint" (length groups) limits.max_groups_per_endpoint
  check_limit "sources per endpoint group" (most_sources groups) limits.max_sources_per_group
  check_limit "total endpoint groups" s.total_endpoint_groups limits.max_total_endpoint_groups
  check_limit "total sources" s.total_sources limits.max_total_sources
  check_limit "upstream subscriptions" (length s.subscriptions) limits.max_upstream_subscriptions

-- Puts the endpoint back as it was before the report.
unfoldable pub restore : Option EndpointState → SocketAddr → Endpoints → Endpoints
restore (some previous) endpoint endpoints = BTreeMap.insert endpoint previous endpoints
restore none endpoint endpoints = BTreeMap.remove endpoint endpoints

unfoldable pub apply_checked :
    RelayState → SocketAddr → MembershipReport → RelayLimits → RelayState × Result StateLimitError ℕ
unfolding apply_report check_state restore rebuild_indexes
apply_checked s endpoint report limits =
    let (s', applied) = apply_report s endpoint report in
    elim (check_state s' endpoint limits) [
      | ok _ ↦ (s', ok applied)
      | err e ↦ (
        rebuild_indexes (record s' {
          endpoints = restore (BTreeMap.get endpoint s.endpoints) endpoint s'.endpoints;
        }),
        err e,
      )
    ]

unfoldable pub check_report : MembershipReport → RelayLimits → Result StateLimitError (Unit {0})
unfolding check_limit check_records
check_report report limits =
    check_limit "records per report" (length report.records) limits.max_records_per_report >>= λ _.
    check_records report.records limits.max_sources_per_group

unfoldable pub apply_report_limited :
    RelayState → SocketAddr → MembershipReport → RelayLimits → RelayState × Result StateLimitError ℕ
unfolding check_report apply_checked
apply_report_limited s endpoint report limits = elim (check_report report limits) [
  | ok _ ↦ apply_checked s endpoint report limits
  | err e ↦ (s, err e)
]
