-- ===== src/State/Tests.antt =====
-- A relay with one gateway that asks for one source of a group, and a second gateway that a limit
-- turns away.
use amt.Prelude.{ℕ, ◌≡◌, ◌≤◌, refl, false, [], ◌∷◌, ok, err, length, if◌then◌else◌}
use amt.Address.{IpAddr, v4, SocketAddr, ip_eq}
use amt.Collections.BTreeSet.{contains, extend}
use amt.Collections.BTreeMap.{get, insert}
use amt.Collections.Key.{ip_key, socket_key}
use amt.Protocol.{igmpv3}
use amt.Membership.{MembershipRecord, MembershipReport, allow_new_sources}
use amt.State.{RelayState, RelayLimits, StateLimitError}
use amt.State.Interest.{apply_record, wants, interest_wants, asks}
use amt.State.Asked.{apply_record-asks}
use amt.State.Index.{
  rebuild_indexes, index_endpoints, index_endpoint, index_groups, index_group, subscriptions_of,
  aggregate_of, into_interest, apply,
}
use amt.State.Ops.{
  empty_state, empty_endpoint, apply_report, apply_report_limited, preview_report, remove_endpoint,
  matching_endpoints, endpoint_interest, check_report, apply_checked, check_state,
}
use amt.State.Coverage.{any_wants}
use amt.State.Aggregate.{rebuild_indexes-wants}
use amt.State.Forwarding.{matching_endpoints-wants}
use amt.State.Rollback.{apply_report_limited_rollback}
use amt.State.Bounds.{Within, apply_report_limited-Within}
use amt.State.Valid.{
  IsValid, empty_state-IsValid, apply_report-IsValid, remove_endpoint-IsValid,
  apply_report_limited-IsValid,
}
use amt.State.Preview.{preview_report_unchanged}

abbrev group : IpAddr
group = v4 0xe8000001

abbrev source : IpAddr
source = v4 7

abbrev first_gateway : SocketAddr
first_gateway = record { ip = v4 1; port = 2268 }

abbrev second_gateway : SocketAddr
second_gateway = record { ip = v4 2; port = 2268 }

abbrev join_record : MembershipRecord
join_record = record { kind = allow_new_sources; group = group; sources = source ∷ [] }

abbrev join_report : MembershipReport
join_report = record { protocol = igmpv3; records = join_record ∷ [] }

abbrev limits : ℕ → RelayLimits
limits endpoints = record {
  max_endpoints = endpoints;
  max_endpoints_per_ip = 4;
  max_groups_per_endpoint = 4;
  max_sources_per_group = 4;
  max_total_endpoint_groups = 4;
  max_total_sources = 4;
  max_upstream_subscriptions = 4;
  max_records_per_report = 4;
}

abbrev joined : RelayState
joined = (apply_report empty_state first_gateway join_report).0

joined-IsValid : IsValid joined
joined-IsValid = apply_report-IsValid empty_state first_gateway join_report empty_state-IsValid

rebuild_indexes-wants_example :
    wants (rebuild_indexes joined).aggregate group source ≡ any_wants joined.endpoints group source
rebuild_indexes-wants_example =
    rebuild_indexes-wants joined group source joined-IsValid.groups_sorted

matching_endpoints-wants_example :
    contains first_gateway (matching_endpoints (rebuild_indexes joined) source group)
    ≡ interest_wants (endpoint_interest joined first_gateway group) source
matching_endpoints-wants_example = matching_endpoints-wants joined source group first_gateway

apply_record-asks_example :
    wants (apply_record empty_endpoint join_record).0.groups group source ≡ (
      if ip_eq group group
      then asks allow_new_sources (contains source (source ∷ [])) (wants [] group source)
      else wants [] group source)
apply_record-asks_example = apply_record-asks empty_endpoint join_record group source

abbrev refusal : StateLimitError
refusal = record { resource = "endpoints"; requested = 2; limit = 1 }

abbrev refused : RelayState
refused = (apply_report_limited joined second_gateway join_report (limits 1)).0

joined_refuses :
    apply_report_limited joined second_gateway join_report (limits 1) ≡ (refused, err refusal)
unfolding apply_report_limited check_report apply_checked apply_report check_state insert get extend
    index_endpoints index_endpoint index_groups index_group subscriptions_of aggregate_of
    into_interest apply
joined_refuses = refl

apply_report_limited_rollback_example : refused ≡ joined
apply_report_limited_rollback_example =
    apply_report_limited_rollback joined refused second_gateway join_report (limits 1) refusal
      joined-IsValid.indexed joined-IsValid.sorted joined_refuses

abbrev both : RelayState
both = (apply_report_limited joined second_gateway join_report (limits 2)).0

joined_accepts : apply_report_limited joined second_gateway join_report (limits 2) ≡ (both, ok 1)
unfolding apply_report_limited check_report apply_checked apply_report check_state insert get extend
    index_endpoints index_endpoint index_groups index_group subscriptions_of aggregate_of
    into_interest apply
joined_accepts = refl

apply_report_limited-Within_example :
    Within (limits 2) both second_gateway
    × (length join_report.records ≤ (limits 2).max_records_per_report)
    × ((apply_report joined second_gateway join_report).0 ≡ both)
    × ((apply_report joined second_gateway join_report).1 ≡ 1)
apply_report_limited-Within_example =
    apply_report_limited-Within joined both second_gateway join_report (limits 2) 1 joined_accepts

apply_report_limited-IsValid_example : IsValid refused
apply_report_limited-IsValid_example =
    apply_report_limited-IsValid joined second_gateway join_report (limits 1) joined-IsValid

apply_report-IsValid_example : IsValid joined
apply_report-IsValid_example =
    apply_report-IsValid empty_state first_gateway join_report empty_state-IsValid

remove_endpoint-IsValid_example : IsValid (remove_endpoint joined first_gateway).0
remove_endpoint-IsValid_example = remove_endpoint-IsValid joined first_gateway joined-IsValid

joined_unchanged : (preview_report joined first_gateway join_report).1 ≡ false
unfolding preview_report apply_report insert get extend
joined_unchanged = refl

preview_report_unchanged_example : (apply_report joined first_gateway join_report).0 ≡ joined
preview_report_unchanged_example =
    preview_report_unchanged joined first_gateway join_report joined-IsValid joined_unchanged
