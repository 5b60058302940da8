-- ===== src/LocalMembership/Delta.antt =====
-- The records that local_membership.rs reports: those of a change of the interests, and those of the
-- interests as they are.
use mathlib.Core.Logic.{ite}
use amt.Prelude.{
  ℕ, Bool, true, false, not, ◌&&◌, Option, none, some, List, [], ◌∷◌, ◌++◌, if◌then◌else◌, ◌==◌,
}
use amt.Address.{IpAddr, v4, v6, is_multicast}
use amt.Collections.BTreeSet
use amt.Collections.BTreeMap
use amt.Collections.Key.{ip_key}
use amt.Ip.{is_amt_forwardable_group}
use amt.Protocol.{MembershipProtocol}
use amt.Membership.{
  MembershipRecord, MembershipRecordKind, mode_is_include, mode_is_exclude, change_to_include,
  change_to_exclude,
}
use amt.State.{FilterMode, include, exclude, GroupInterest, Groups, interest_discrete}
use amt.LocalMembership.{ReportRecordMode, state, change, group_matches_protocol}

abbrev pub kind_of : FilterMode → ReportRecordMode → MembershipRecordKind
kind_of include state = mode_is_include
kind_of include change = change_to_include
kind_of exclude state = mode_is_exclude
kind_of exclude change = change_to_exclude

unfoldable pub record_for_interest : IpAddr → GroupInterest → ReportRecordMode → MembershipRecord
record_for_interest group interest mode = record {
  kind = kind_of interest.mode mode;
  group = group;
  sources = interest.sources;
}

abbrev pub keys : Groups → List IpAddr
keys [] = []
keys ((group, interest) ∷ rest) = group ∷ keys rest

-- `previous == current`.
unfoldable pub same_interest : Option GroupInterest → Option GroupInterest → Bool
unfolding interest_discrete
same_interest previous current = ite (interest_discrete previous current) true false

abbrev pub change_record : IpAddr → Option GroupInterest → MembershipRecord
change_record group (some interest) = record_for_interest group interest change
change_record group none = record { kind = change_to_include; group = group; sources = [] }

-- The loop over the groups.
unfoldable pub delta_for :
    MembershipProtocol → Groups → Groups → List IpAddr → List MembershipRecord
delta_for protocol previous current [] = []
delta_for protocol previous current (group ∷ rest) =
    let records = delta_for protocol previous current rest in
    let now = BTreeMap.get group current in
    if not (group_matches_protocol protocol group)
    then records
    else if same_interest (BTreeMap.get group previous) now
    then records
    else change_record group now ∷ records

unfoldable pub delta_records : MembershipProtocol → Groups → Groups → List MembershipRecord
delta_records protocol previous current =
    delta_for protocol previous current (BTreeSet.extend [] (keys previous ++ keys current))

unfoldable pub is_amt_exportable_ipv4_group : ℕ → Bool
is_amt_exportable_ipv4_group group = not (group == 0xefff_fffa) && not (group == 0xefff_fffd)

unfoldable pub is_amt_exportable_ipv6_group : ℕ → Bool
is_amt_exportable_ipv6_group group = is_multicast (v6 group)

abbrev pub exportable_by_family : IpAddr → Bool
exportable_by_family (v4 group) = is_amt_exportable_ipv4_group group
exportable_by_family (v6 group) = is_amt_exportable_ipv6_group group

unfoldable pub is_amt_exportable_group : IpAddr → Bool
is_amt_exportable_group group =
    if not (is_amt_forwardable_group group) then false else exportable_by_family group

unfoldable pub filter_exportable_interests : MembershipProtocol → Groups → Groups
filter_exportable_interests protocol [] = []
filter_exportable_interests protocol ((group, interest) ∷ rest) =
    let kept = filter_exportable_interests protocol rest in
    if group_matches_protocol protocol group && is_amt_exportable_group group
    then (group, interest) ∷ kept
    else kept

-- The records of `current_report`.
unfoldable pub state_records : MembershipProtocol → Groups → List MembershipRecord
state_records protocol [] = []
state_records protocol ((group, interest) ∷ rest) =
    let records = state_records protocol rest in
    if group_matches_protocol protocol group
    then record_for_interest group interest state ∷ records
    else records
