-- ===== src/Gateway/Memberships.antt =====
-- The reports and the teardown that gateway.rs sends.
use amt.Prelude.{
  ℕ, Bool, not, Option, none, some, List, [], ◌∷◌, ◌++◌, Result, ok, err, ◌>>=◌, ok_or, map_err,
  if◌then◌else◌,
}
use amt.Address.{IpAddr, SocketAddr}
use amt.Collections.BTreeSet.{contains, extend}
use amt.Collections.Key.{ip_key, socket_key}
use amt.Protocol.{Message}
use amt.Protocol.Codec.{encode}
use amt.Membership.{
  MembershipRecord, MembershipReport, mode_is_exclude, change_to_include, allow_new_sources,
}
use amt.Membership.Build.{build_membership_report}
use amt.State.{Groups}
use amt.State.Interest.{is_empty}
use amt.State.Ops.{endpoint_has_interests, apply_report}
use amt.Gateway.{
  GatewaySession, Gateway, GatewaySend, GatewayAction, send, GatewayError, membership_build,
  missing_relay_endpoint, missing_membership_query, missing_gateway_endpoint,
}
use amt.Gateway.Discovery.{Handled}
use amt.Gateway.Handle.{reception_state_endpoint, teardown_send}

abbrev pub set_reported : Bool → Option GatewaySession → Option GatewaySession
set_reported reported none = none
set_reported reported (some session) = some (record session { reported_memberships = reported })

abbrev pub update_send : SocketAddr → GatewaySession → List ℕ → GatewaySend
update_send relay session update = record {
  destination = relay;
  datagram = encode (Message.membership_update session.response_mac session.request_nonce update);
}

abbrev pub check_update : Gateway → MembershipReport → Result GatewayError GatewayAction
check_update g report = do
  relay ← ok_or g.relay_endpoint missing_relay_endpoint
  session ← ok_or g.session missing_membership_query
  update ← map_err membership_build (build_membership_report report)
  ok (send (update_send relay session update))

unfoldable pub membership_update : Gateway → MembershipReport → Handled
unfolding apply_report endpoint_has_interests
membership_update g report =
    let state = (apply_report g.reception_state reception_state_endpoint report).0 in
    elim (check_update g report) [
      | err e ↦ (g, err e)
      | ok sent ↦ (
        record g {
          reception_state = state;
          session = set_reported (endpoint_has_interests state reception_state_endpoint) g.session;
        },
        ok sent,
      )
    ]

-- The records that leave the groups of the reception state which are not among `current`.
abbrev pub leave_records : List IpAddr → Groups → List MembershipRecord
unfolding contains
leave_records current [] = []
leave_records current ((group, interest) ∷ rest) =
    let leaving = leave_records current rest in
    if not (contains group current)
    then record { kind = change_to_include; group = group; sources = [] } ∷ leaving
    else leaving

abbrev pub record_groups : List MembershipRecord → List IpAddr
record_groups [] = []
record_groups (r ∷ rest) = r.group ∷ record_groups rest

abbrev pub replacing_report : Gateway → MembershipReport → MembershipReport
unfolding extend
replacing_report g report = record report {
  records =
      report.records
      ++ leave_records (extend [] (record_groups report.records)) g.reception_state.aggregate;
}

abbrev pub sent_some : Handled → Gateway × Result GatewayError (Option GatewayAction)
sent_some (g, ok sent) = (g, ok (some sent))
sent_some (g, err e) = (g, err e)

unfoldable pub replace_memberships :
    Gateway → MembershipReport → Gateway × Result GatewayError (Option GatewayAction)
unfolding membership_update
replace_memberships g report =
    let replacing = replacing_report g report in
    if is_empty replacing.records then (g, ok none) else sent_some (membership_update g replacing)

abbrev pub join_record : IpAddr → Option IpAddr → MembershipRecord
join_record group (some source) = record {
  kind = allow_new_sources;
  group = group;
  sources = source ∷ [];
}
join_record group none = record { kind = mode_is_exclude; group = group; sources = [] }

unfoldable pub join_group : Gateway → IpAddr → Option IpAddr → Handled
unfolding membership_update
join_group g group source =
    membership_update g
      (record { protocol = g.config.protocol; records = join_record group source ∷ [] })

unfoldable pub teardown : Gateway → Result GatewayError GatewayAction
teardown g = do
  relay ← ok_or g.relay_endpoint missing_relay_endpoint
  session ← ok_or g.session missing_membership_query
  gateway ← ok_or session.gateway_endpoint missing_gateway_endpoint
  ok (send (teardown_send relay session gateway))
