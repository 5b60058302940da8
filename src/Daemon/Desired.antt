-- ===== src/Daemon/Desired.antt =====
-- The report that the gateway's daemon in daemon.rs asks for: what the configuration joins and what
-- the local reporters want.
use amt.Prelude.{
  ◌/◌, ◌^◌, ◌≡◌, refl, arith, Bool, true, false, ◌&&◌, ◌||◌, Option, none, some, List, [], ◌∷◌,
  if◌then◌else◌, length, ◌==◌,
}
use amt.Address.{IpAddr, v4, v6, SocketAddr, ip_eq}
use amt.Collections.BTreeMap
use amt.Collections.BTreeMap.{get, get-insert}
use amt.Collections.BTreeSet
use amt.Collections.BTreeSet.{contains, contains-insert}
use amt.Collections.Key.{ip_key, ip_eq_iff}
use amt.Protocol.{MembershipProtocol}
use amt.Membership.{
  MembershipRecordKind, mode_is_include, mode_is_exclude, MembershipRecord, MembershipReport,
}
use amt.State.{FilterMode, include, exclude, Groups, RelayState}
use amt.State.Ops.{empty_state, apply_report}
use amt.LocalMembership.{LocalMembershipManager}
use amt.LocalMembership.Manager.{current_report}

pub record GatewayJoin : Type 0 where
  pub group : IpAddr
  pub source : Option IpAddr

-- The sources that are joined of each group, or `none` for all of them.
abbrev pub Joined : Type 0
Joined = List (IpAddr × Option (List IpAddr))

abbrev pub merged : Option (List IpAddr) → Option IpAddr → Option (List IpAddr)
merged interest none = none
merged (some sources) (some source) = some (BTreeSet.insert source sources)
merged none (some source) = none

abbrev pub or_no_sources : Option (Option (List IpAddr)) → Option (List IpAddr)
or_no_sources none = some []
or_no_sources (some interest) = interest

-- The loop over the joins.
unfoldable pub joined_groups : Joined → List GatewayJoin → Joined
joined_groups groups [] = groups
joined_groups groups (join ∷ joins) =
    joined_groups
      (BTreeMap.insert join.group
        (merged (or_no_sources (BTreeMap.get join.group groups)) join.source) groups)
      joins

abbrev pub joined_record : IpAddr → Option (List IpAddr) → MembershipRecord
joined_record group (some sources) = record {
  kind = mode_is_include;
  group = group;
  sources = sources;
}
joined_record group none = record { kind = mode_is_exclude; group = group; sources = [] }

abbrev pub joined_records : Joined → List MembershipRecord
joined_records [] = []
joined_records ((group, sources) ∷ rest) = joined_record group sources ∷ joined_records rest

unfoldable pub configured_joins_report :
    MembershipProtocol → List GatewayJoin → Option MembershipReport
unfolding joined_groups
configured_joins_report protocol joins =
    let records = joined_records (joined_groups [] joins) in
    if length records == 0 then none else some (record { protocol = protocol; records = records })

abbrev pub mode_record : FilterMode → MembershipRecordKind
mode_record include = mode_is_include
mode_record exclude = mode_is_exclude

abbrev pub aggregate_records : Groups → List MembershipRecord
aggregate_records [] = []
aggregate_records ((group, interest) ∷ rest) =
    record { kind = mode_record interest.mode; group = group; sources = interest.sources }
    ∷ aggregate_records rest

abbrev pub apply_some : RelayState → SocketAddr → Option MembershipReport → RelayState
apply_some s endpoint none = s
apply_some s endpoint (some report) = (apply_report s endpoint report).0

abbrev pub local_report : Option LocalMembershipManager → Option MembershipReport
local_report none = none
local_report (some manager) = current_report manager

unfoldable pub desired_membership_report :
    MembershipProtocol → List GatewayJoin → Option LocalMembershipManager → MembershipReport
unfolding configured_joins_report
desired_membership_report protocol joins local =
    let configured =
      apply_some empty_state (record { ip = v4 0; port = 1 })
        (configured_joins_report protocol joins) in
    let state = apply_some configured (record { ip = v4 0; port = 2 }) (local_report local) in
    record { protocol = protocol; records = aggregate_records state.aggregate }

-- The first octet, and the first twelve bits.
unfoldable pub is_ssm_multicast_group : IpAddr → Bool
is_ssm_multicast_group (v4 group) = group / 2 ^ 24 == 232
is_ssm_multicast_group (v6 group) = group / 2 ^ 116 == 0xff3

-- Whether a source is joined, and whether one of the joins asks for it.
abbrev pub joins_source : Option (Option (List IpAddr)) → IpAddr → Bool
joins_source none source = false
joins_source (some none) source = true
joins_source (some (some sources)) source = BTreeSet.contains source sources

abbrev pub asks_source : Option IpAddr → IpAddr → Bool
asks_source none source = true
asks_source (some s) source = ip_eq source s

abbrev pub is_joined : List GatewayJoin → IpAddr → IpAddr → Bool
is_joined [] group source = false
is_joined (join ∷ joins) group source =
    (ip_eq group join.group && asks_source join.source source) || is_joined joins group source

merged-joins_source :
    (interest : Option (Option (List IpAddr))) (asked : Option IpAddr) (source : IpAddr)
    → joins_source (some (merged (or_no_sources interest) asked)) source
      ≡ (asks_source asked source || joins_source interest source)
unfolding contains
merged-joins_source interest none source = refl
merged-joins_source none (some s) source = ground (arith, contains-insert source s [])
merged-joins_source (some none) (some s) source = ground arith
merged-joins_source (some (some sources)) (some s) source =
    ground (arith, contains-insert source s sources)

joined_groups-joins_source :
    (groups : Joined) (joins : List GatewayJoin) (group source : IpAddr)
    → joins_source (BTreeMap.get group (joined_groups groups joins)) source
      ≡ (joins_source (BTreeMap.get group groups) source || is_joined joins group source)
unfolding joined_groups
joined_groups-joins_source groups [] group source = ground arith
joined_groups-joins_source groups (join ∷ joins) group source =
    let interest = BTreeMap.get join.group groups in
    let next = merged (or_no_sources interest) join.source in
    ground (
      arith,
      joined_groups-joins_source (BTreeMap.insert join.group next groups) joins group source,
      get-insert group join.group next groups,
      merged-joins_source interest join.source source,
      ip_eq_iff group join.group,
    )

get-empty : (group : IpAddr) → BTreeMap.get {V = Option (List IpAddr)} group [] ≡ none
unfolding get
get-empty group = refl

-- What the configuration's report is built from joins a source of a group exactly where one of the
-- joins is for that group, and for that source or for all of them, in whatever order they stand.
pub joined_groups-is_joined :
    (joins : List GatewayJoin) (group source : IpAddr)
    → joins_source (BTreeMap.get group (joined_groups [] joins)) source
      ≡ is_joined joins group source
joined_groups-is_joined joins group source =
    ground (arith, joined_groups-joins_source [] joins group source, get-empty group)
