-- ===== src/Daemon/Configured.antt =====
-- What the report of the configuration's joins in daemon.rs asks for.
use amt.Prelude.{
  ◌≡◌, refl, ◌∙◌, ap, arith, Bool, false, Option, none, some, List, [], ◌∷◌, ◌==◌, length,
  if◌then◌else◌,
}
use amt.Address.{IpAddr, ip_eq}
use amt.Collections.BTreeMap.{get, insert, IsSorted, get-Above, Above→IsSorted, insert-IsSorted}
use amt.Collections.BTreeSet.{contains}
use amt.Collections.Key.{ip_key, ip_eq_iff}
use amt.Membership.{MembershipRecord}
use amt.Protocol.{MembershipProtocol}
use amt.State.{EndpointState}
use amt.State.Asked.{apply_record-asks}
use amt.State.Interest.{apply_record, wants, asks}
use amt.State.Ops.{apply_records}
use amt.LocalMembership.Reports.{reported}
use amt.Daemon.Desired.{
  GatewayJoin, Joined, merged, or_no_sources, joined_groups, joined_record, joined_records,
  configured_joins_report, joins_source, is_joined, joined_groups-is_joined,
}

joined_record-group :
    (group : IpAddr) (sources : Option (List IpAddr)) → (joined_record group sources).group ≡ group
joined_record-group group none = refl
joined_record-group group (some sources) = refl

joined_record-asks :
    (group : IpAddr) (sources : Option (List IpAddr)) (source : IpAddr) (before : Bool)
    → (let r = joined_record group sources in asks r.kind (contains source r.sources) before)
      ≡ joins_source (some sources) source
unfolding contains
joined_record-asks group none source before = refl
joined_record-asks group (some sources) source before = refl

apply_joined_record :
    (st : EndpointState) (group : IpAddr) (sources : Option (List IpAddr)) (g source : IpAddr)
    → wants (apply_record st (joined_record group sources)).0.groups g source
      ≡ (if ip_eq g group then joins_source (some sources) source else wants st.groups g source)
apply_joined_record st group sources g source =
    apply_record-asks st (joined_record group sources) g source
    ∙ rw
        (
          joined_record-group group sources,
          joined_record-asks group sources source (wants st.groups group source),
        )
        refl

-- What is wanted of a group that is joined so, and otherwise was wanted before.
abbrev joins_or : Option (Option (List IpAddr)) → IpAddr → Bool → Bool
joins_or none source before = before
joins_or (some sources) source before = joins_source (some sources) source

joins_or-false :
    (sources : Option (Option (List IpAddr))) (source : IpAddr)
    → joins_or sources source false ≡ joins_source sources source
joins_or-false none source = refl
joins_or-false (some sources) source = refl

joined_records-wants :
    (groups : Joined) (st : EndpointState) (g source : IpAddr)
    → IsSorted groups
    → wants (apply_records st (joined_records groups)).0.groups g source
      ≡ joins_or (get g groups) source (wants st.groups g source)
unfolding apply_records get
joined_records-wants [] st g source sorted = refl
joined_records-wants ((x, sources) ∷ rest) st g source sorted = ground (
  arith,
  ip_eq_iff g x,
  joined_records-wants rest (apply_record st (joined_record x sources)).0 g source
      (Above→IsSorted x rest sorted),
  apply_joined_record st x sources g source,
  get-Above x rest sorted,
)

joined_groups-IsSorted :
    (groups : Joined) (joins : List GatewayJoin)
    → IsSorted groups
    → IsSorted (joined_groups groups joins)
unfolding joined_groups
joined_groups-IsSorted groups [] sorted = sorted
joined_groups-IsSorted groups (join ∷ joins) sorted =
    let sources = merged (or_no_sources (get join.group groups)) join.source in
    joined_groups-IsSorted (insert join.group sources groups) joins
      (insert-IsSorted join.group sources groups sorted)

reported_if_any :
    (protocol : MembershipProtocol) (records : List MembershipRecord) (st : EndpointState)
    → reported
        (if length records == 0
          then none
          else some (record { protocol = protocol; records = records }))
        st
      ≡ (apply_records st records).0
unfolding apply_records
reported_if_any protocol [] st = refl
reported_if_any protocol (r ∷ rest) st = ground arith

configured_joins_report-reported :
    (protocol : MembershipProtocol) (joins : List GatewayJoin) (st : EndpointState)
    → reported (configured_joins_report protocol joins) st
      ≡ (apply_records st (joined_records (joined_groups [] joins))).0
unfolding configured_joins_report
configured_joins_report-reported protocol joins st =
    reported_if_any protocol (joined_records (joined_groups [] joins)) st

-- Whoever does not want a source of a group, and applies the report of the configuration's joins,
-- wants it then exactly where one of the joins is for that group, and for that source or for all of
-- them, in whatever order the joins stand.
pub configured_joins_report-is_joined :
    (protocol : MembershipProtocol) (joins : List GatewayJoin) (st : EndpointState)
    (group source : IpAddr)
    → wants st.groups group source ≡ false
    → wants (reported (configured_joins_report protocol joins) st).groups group source
      ≡ is_joined joins group source
configured_joins_report-is_joined protocol joins st group source unwanted =
    ap (λ (e : EndpointState). wants e.groups group source)
      (configured_joins_report-reported protocol joins st)
    ∙ joined_records-wants (joined_groups [] joins) st group source
        (joined_groups-IsSorted [] joins tt)
    ∙ rw unwanted (
        joins_or-false (get group (joined_groups [] joins)) source
        ∙ joined_groups-is_joined joins group source)
