-- ===== src/LocalMembership/Tests.antt =====
-- A manager that has seen no reporter, and one with a reporter that is stale.
use amt.Prelude.{◌*◌, ◌^◌, ◌≡◌, ◌&&◌, not, refl, some, none, [], ◌∷◌, ◌==◌}
use amt.Address.{v4, SocketAddr}
use amt.Collections.BTreeMap.{get}
use amt.Collections.Key.{ip_key}
use amt.Protocol.{igmpv3}
use amt.State.{exclude}
use amt.State.Coverage.{any_wants}
use amt.State.Interest.{wants}
use amt.State.Ops.{is_some, contains_endpoint, empty_state}
use amt.State.Valid.{empty_state-IsValid}
use amt.LocalMembership.{LocalMembershipConfig, LocalMembershipManager, group_matches_protocol}
use amt.LocalMembership.Delta.{is_amt_exportable_group}
use amt.LocalMembership.Manager.{pending_report, prune_stale_reporters_at, default_relay_limits}
use amt.LocalMembership.Reports.{reported, pending_report-wants}
use amt.LocalMembership.Expiry.{seen_is_stale, prune_stale_reporters_at-contains_endpoint}

abbrev config : LocalMembershipConfig
config = record {
  protocol = igmpv3;
  interface = none;
  interface_index = none;
  query_interval = some (30 * 10 ^ 9);
  reporter_timeout = 260 * 10 ^ 9;
}

-- It has advertised a group that no reporter wants any more.
abbrev left : LocalMembershipManager
left = record {
  config = config;
  state = empty_state;
  advertised = (v4 0xe9010203, record { mode = exclude; sources = [] }) ∷ [];
  reporter_last_seen = (v4 7, 5) ∷ [];
  limits = default_relay_limits;
}

pending_report-wants_example :
    wants
      (reported (pending_report left) (record { groups = left.advertised })).groups
      (v4 0xe9010203)
      (v4 9)
    ≡ (is_amt_exportable_group (v4 0xe9010203)
        && any_wants left.state.endpoints (v4 0xe9010203) (v4 9))
unfolding group_matches_protocol
pending_report-wants_example =
    pending_report-wants left (record { groups = left.advertised }) (v4 0xe9010203) (v4 9)
      empty_state-IsValid refl refl

abbrev reporter : SocketAddr
reporter = record { ip = v4 7; port = 0 }

prune_stale_reporters_at-contains_endpoint_example :
    contains_endpoint (prune_stale_reporters_at left (300 * 10 ^ 9)).0.state reporter ≡ (
      contains_endpoint left.state reporter
      && not (
          is_some left.config.query_interval
          && (reporter.port == 0
              && seen_is_stale left.config.reporter_timeout
                  (300 * 10 ^ 9)
                  (get reporter.ip left.reporter_last_seen))))
prune_stale_reporters_at-contains_endpoint_example =
    prune_stale_reporters_at-contains_endpoint left (300 * 10 ^ 9) reporter tt
