-- ===== src/LocalMembership/Manager.antt =====
-- The operations of local_membership.rs on the manager. A method that changes it returns the new one.
use amt.Prelude.{
  ℕ, zero, suc, ◌-◌, ◌/◌, ◌^◌, Bool, true, false, not, ◌&&◌, Option, none, some, List, [], ◌∷◌,
  Result, ok, err, if◌then◌else◌, length, get_elem?, leb, ◌==◌,
}
use amt.Prelude.Bytes.{slice, from_be}
use amt.Address.{IpAddr, v4, v6, SocketAddr}
use amt.Collections.BTreeMap
use amt.Collections.Key.{ip_key}
use amt.Protocol.{MembershipProtocol, igmpv3, mldv2}
use amt.Membership.{MembershipRecord, MembershipReport}
use amt.Membership.Parse.{parse_membership_report}
use amt.Query.{GeneralQueryConfig, for_local_network, encode_query_interval, build_general_query}
use amt.State.{RelayLimits}
use amt.State.Interest.{is_empty}
use amt.State.Ops.{empty_state, is_some, apply_report_limited, contains_endpoint, remove_endpoint}
use amt.LocalMembership.{
  LocalMembershipConfig, LocalMembershipManager, LocalMembershipEvent, LocalMembershipError, mcrx,
  parse, state_limit, Received, datagram, failed,
}
use amt.LocalMembership.Delta.{delta_records, filter_exportable_interests, state_records}

abbrev pub max_irrelevant_packet_skip : ℕ
max_irrelevant_packet_skip = 16

-- `RelayLimits::default`.
abbrev pub default_relay_limits : RelayLimits
default_relay_limits = record {
  max_endpoints = 4096;
  max_endpoints_per_ip = 256;
  max_groups_per_endpoint = 128;
  max_sources_per_group = 128;
  max_total_endpoint_groups = 16384;
  max_total_sources = 65536;
  max_upstream_subscriptions = 256;
  max_records_per_report = 512;
}

unfoldable pub new_manager : LocalMembershipConfig → LocalMembershipManager
new_manager config = record {
  config = config;
  state = empty_state;
  advertised = [];
  reporter_last_seen = [];
  limits = default_relay_limits;
}

unfoldable pub parse_datagram_source : List ℕ → Option IpAddr
parse_datagram_source packet = elim (get_elem? packet 0) [
  | none ↦ none
  | some first ↦
      (if first / 16 == 4 && leb 20 (length packet)
        then some (v4 (from_be (slice packet 12 16)))
        else if first / 16 == 6 && leb 40 (length packet)
        then some (v6 (from_be (slice packet 8 24)))
        else none)
]

abbrev pub reporter_endpoint : IpAddr → SocketAddr
reporter_endpoint reporter = record { ip = reporter; port = 0 }

abbrev pub Handled : Type 0
Handled = LocalMembershipManager × Result LocalMembershipError (Option LocalMembershipEvent)

-- A report of the manager's protocol, from a reporter.
unfoldable pub apply_local_report : LocalMembershipManager → ℕ → IpAddr → MembershipReport → Handled
unfolding apply_report_limited contains_endpoint
apply_local_report m now reporter report =
    let endpoint = reporter_endpoint reporter in
    let (state, applied) = apply_report_limited m.state endpoint report m.limits in
    elim applied [
      | err e ↦ (record m { state = state }, err (state_limit e))
      | ok n ↦ (
        record m {
          state = state;
          reporter_last_seen =
              if contains_endpoint state endpoint
              then BTreeMap.insert reporter now m.reporter_last_seen
              else BTreeMap.remove reporter m.reporter_last_seen;
        },
        ok (
            some (record {
              reporter = reporter;
              records_received = length report.records;
              active_subscriptions = state.subscriptions;
            })),
      )
    ]

abbrev pub same_protocol : MembershipProtocol → MembershipProtocol → Bool
same_protocol igmpv3 igmpv3 = true
same_protocol mldv2 mldv2 = true
same_protocol _ _ = false

-- The loop of `try_recv` over what is received, `rounds` more of it; an irrelevant packet is skipped.
-- What is left of it comes last.
unfoldable pub receive_round :
    ℕ → LocalMembershipManager → ℕ → List Received → Handled × List Received
unfolding apply_local_report parse_datagram_source
receive_round zero m now received = ((m, ok none), received)
receive_round (suc rounds) m now [] = ((m, ok none), [])
receive_round (suc rounds) m now (failed ∷ rest) = ((m, err mcrx), rest)
receive_round (suc rounds) m now (datagram packet ∷ rest) = elim (parse_membership_report packet) [
  | err e ↦ ((m, err (parse e)), rest)
  | ok report ↦ elim (same_protocol report.protocol m.config.protocol) [
    | false ↦ receive_round rounds m now rest
    | true ↦ elim (parse_datagram_source packet) [
      | none ↦ receive_round rounds m now rest
      | some reporter ↦ (apply_local_report m now reporter report, rest)
    ]
  ]
]

unfoldable pub try_recv : LocalMembershipManager → ℕ → List Received → Handled × List Received
unfolding receive_round
try_recv m now received = receive_round max_irrelevant_packet_skip m now received

abbrev pub report_of : MembershipProtocol → List MembershipRecord → Option MembershipReport
report_of protocol records =
    if not (is_empty records)
    then some (record { protocol = protocol; records = records })
    else none

unfoldable pub pending_report : LocalMembershipManager → Option MembershipReport
unfolding delta_records filter_exportable_interests
pending_report m = report_of m.config.protocol (
    delta_records m.config.protocol m.advertised
      (filter_exportable_interests m.config.protocol m.state.aggregate))

unfoldable pub current_report : LocalMembershipManager → Option MembershipReport
unfolding state_records filter_exportable_interests
current_report m = report_of m.config.protocol (
    state_records m.config.protocol
      (filter_exportable_interests m.config.protocol m.state.aggregate))

unfoldable pub mark_advertised : LocalMembershipManager → LocalMembershipManager
unfolding filter_exportable_interests
mark_advertised m = record m {
  advertised = filter_exportable_interests m.config.protocol m.state.aggregate;
}

-- `checked_duration_since` is none for an instant that lies ahead.
abbrev pub is_stale : ℕ → ℕ → ℕ → Bool
is_stale timeout now last_seen = leb last_seen now && leb timeout (now - last_seen)

unfoldable pub stale_reporters : ℕ → ℕ → List (IpAddr × ℕ) → List IpAddr
stale_reporters timeout now [] = []
stale_reporters timeout now ((reporter, last_seen) ∷ rest) =
    let stale = stale_reporters timeout now rest in
    if is_stale timeout now last_seen then reporter ∷ stale else stale

unfoldable pub remove_reporters : LocalMembershipManager → List IpAddr → LocalMembershipManager
unfolding remove_endpoint
remove_reporters m [] = m
remove_reporters m (reporter ∷ rest) =
    remove_reporters
      (record m {
        reporter_last_seen = BTreeMap.remove reporter m.reporter_last_seen;
        state = (remove_endpoint m.state (reporter_endpoint reporter)).0;
      })
      rest

unfoldable pub prune_stale_reporters_at : LocalMembershipManager → ℕ → LocalMembershipManager × ℕ
unfolding stale_reporters remove_reporters
prune_stale_reporters_at m now =
    let stale = stale_reporters m.config.reporter_timeout now m.reporter_last_seen in
    if not (is_some m.config.query_interval)
    then (m, 0)
    else (remove_reporters m stale, length stale)

-- The addresses of the interface, where it is of the protocol's family.
abbrev pub with_interface :
    MembershipProtocol → Option IpAddr → GeneralQueryConfig → GeneralQueryConfig
with_interface igmpv3 (some (v4 interface)) config = record config { igmp_source = interface }
with_interface mldv2 (some (v6 interface)) config = record config { mld_source = interface }
with_interface _ _ config = config

abbrev pub with_interval : Option ℕ → GeneralQueryConfig → GeneralQueryConfig
with_interval none config = config
with_interval (some interval) config = record config {
  query_interval_code = encode_query_interval (interval / 10 ^ 9);
}

unfoldable pub query_config : LocalMembershipConfig → GeneralQueryConfig
query_config config =
    with_interface config.protocol config.interface
      (with_interval config.query_interval for_local_network)

unfoldable pub local_query : LocalMembershipManager → List ℕ
unfolding query_config
local_query m = build_general_query m.config.protocol (query_config m.config)
