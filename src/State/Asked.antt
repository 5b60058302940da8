-- ===== src/State/Asked.antt =====
-- `apply_record` carries out what a record asks for.
use amt.Prelude.{
  ◌≡◌, refl, Option-cases, inl, inr, arith, true, false, Option, none, some, List, [], ◌∷◌,
  if◌then◌else◌, ◌&&◌, ◌||◌, not,
}
use amt.Address.{IpAddr, ip_eq}
use amt.Collections.BTreeSet.{
  contains, contains-nil, contains-extend, contains-remove_each, extend, remove_each,
}
use amt.Collections.BTreeMap.{get, insert, remove, get-insert, get-remove}
use amt.Collections.Key.{ip_key, ip_eq_iff}
use amt.Membership.{
  MembershipRecord, MembershipRecordKind, mode_is_include, mode_is_exclude, change_to_include,
  change_to_exclude, allow_new_sources, block_old_sources, legacy_report, legacy_leave,
}
use amt.State.{FilterMode, include, exclude, GroupInterest, Groups, EndpointState}
use amt.State.Interest.{
  include_sources, exclude_sources, updated_groups, apply_record, wants, asks, wants_source,
  block_present, allow_sources, interest_or_empty, block_sources, is_empty,
}

-- Writing an interest, or removing it, settles its own group and leaves the others.
wants-insert :
    (g group : IpAddr) (i : GroupInterest) (groups : Groups) (source : IpAddr)
    → wants (insert group i groups) g source
      ≡ (if ip_eq g group then wants_source i source else wants groups g source)
unfolding wants_source
wants-insert g group i groups source = ground (arith, get-insert g group i groups)

wants-remove :
    (g group : IpAddr) (groups : Groups) (source : IpAddr)
    → wants (remove group groups) g source
      ≡ (if ip_eq g group then false else wants groups g source)
unfolding wants_source
wants-remove g group groups source = ground (arith, get-remove g group groups)

pub wants-include :
    (sources : List IpAddr) (source : IpAddr)
    → wants_source (include_sources sources) source ≡ contains source sources
unfolding wants_source include_sources contains
wants-include sources source = ground (arith, contains-extend source [] sources)

pub wants-exclude :
    (sources : List IpAddr) (source : IpAddr)
    → wants_source (exclude_sources sources) source ≡ not (contains source sources)
unfolding wants_source exclude_sources contains
wants-exclude sources source = ground (arith, contains-extend source [] sources)

wants-allow :
    (mode : FilterMode) (i : GroupInterest) (sources : List IpAddr) (source : IpAddr)
    → i.mode ≡ mode
    → wants_source (allow_sources mode i sources) source
      ≡ (contains source sources || wants_source i source)
unfolding wants_source
wants-allow include i sources source e = ground (arith, contains-extend source i.sources sources)
wants-allow exclude i sources source e =
    ground (arith, contains-remove_each source i.sources sources)

-- The groups that `updated_groups` leaves.
abbrev pub groups_after : Groups → Option Groups → Groups
groups_after old none = old
groups_after old (some groups) = groups

wants-equal :
    (g group : IpAddr) (groups : Groups) (source : IpAddr)
    → ip_eq g group ≡ true
    → wants groups g source ≡ wants groups group source
wants-equal g group groups source h = rw ((ip_eq_iff g group).0 h)

wants-or_empty :
    (group : IpAddr) (groups : Groups) (source : IpAddr)
    → wants_source (interest_or_empty (get group groups)) source ≡ wants groups group source
unfolding wants_source include_sources extend contains
wants-or_empty group groups source = ground arith

include_asks :
    (group : IpAddr) (sources : List IpAddr) (groups : Groups) (g source : IpAddr)
    → wants
        (groups_after groups (
          if is_empty sources
          then some (remove group groups)
          else some (insert group (include_sources sources) groups)))
        g
        source
      ≡ (if ip_eq g group then contains source sources else wants groups g source)
include_asks group [] groups g source = rw (wants-remove g group groups source, contains-nil source)
include_asks group (x ∷ xs) groups g source =
    rw
      (wants-insert g group (include_sources (x ∷ xs)) groups source, wants-include (x ∷ xs) source)

block_mode_asks :
    (mode : FilterMode) (i : GroupInterest) (group : IpAddr) (sources : List IpAddr)
    (groups : Groups) (g source : IpAddr)
    → i.mode ≡ mode
    → wants (block_sources mode group i sources groups) g source ≡ (
        if ip_eq g group
        then wants_source i source && not (contains source sources)
        else wants groups g source)
unfolding wants_source
block_mode_asks include i group sources groups g source e = ground (
  arith,
  wants-insert g group (record i { sources = remove_each i.sources sources }) groups source,
  wants-remove g group groups source,
  contains-remove_each source i.sources sources,
  contains-nil source,
)
block_mode_asks exclude i group sources groups g source e = ground (
  arith,
  wants-insert g group (record i { sources = extend i.sources sources }) groups source,
  contains-extend source i.sources sources,
)

block_asks :
    (found : Option GroupInterest) (group : IpAddr) (sources : List IpAddr) (groups : Groups)
    (g source : IpAddr)
    → get group groups ≡ found
    → wants (block_present found group sources groups) g source ≡ (
        if ip_eq g group
        then wants groups group source && not (contains source sources)
        else wants groups g source)
unfolding wants_source
block_asks none group sources groups g source e = ground (arith, wants-equal g group groups source)
block_asks (some i) group sources groups g source e =
    ground (arith, block_mode_asks i.mode i group sources groups g source refl)

updated_asks :
    (kind : MembershipRecordKind) (group : IpAddr) (sources : List IpAddr) (groups : Groups)
    (g source : IpAddr)
    → wants (groups_after groups (updated_groups kind group sources groups)) g source ≡ (
        if ip_eq g group
        then asks kind (contains source sources) (wants groups group source)
        else wants groups g source)
unfolding updated_groups
updated_asks legacy_report group sources groups g source =
    rw (wants-insert g group (exclude_sources []) groups source)
      (ground (arith, wants-exclude [] source, contains-nil source))
updated_asks legacy_leave group sources groups g source = wants-remove g group groups source
updated_asks mode_is_include group sources groups g source =
    include_asks group sources groups g source
updated_asks change_to_include group sources groups g source =
    include_asks group sources groups g source
updated_asks mode_is_exclude group sources groups g source =
    rw (wants-insert g group (exclude_sources sources) groups source, wants-exclude sources source)
updated_asks change_to_exclude group sources groups g source =
    rw (wants-insert g group (exclude_sources sources) groups source, wants-exclude sources source)
updated_asks allow_new_sources group [] groups g source =
    ground (arith, contains-nil source, wants-equal g group groups source)
updated_asks allow_new_sources group (x ∷ xs) groups g source =
    let i = interest_or_empty (get group groups) in
    rw (wants-insert g group (allow_sources i.mode i (x ∷ xs)) groups source) (
      ground (arith, wants-allow i.mode i (x ∷ xs) source refl, wants-or_empty group groups source))
updated_asks block_old_sources group [] groups g source =
    ground (arith, contains-nil source, wants-equal g group groups source)
updated_asks block_old_sources group (x ∷ xs) groups g source =
    block_asks (get group groups) group (x ∷ xs) groups g source refl

pub apply_record-groups :
    (st : EndpointState) (r : MembershipRecord)
    → (apply_record st r).0.groups
      ≡ groups_after st.groups (updated_groups r.kind r.group r.sources st.groups)
unfolding apply_record
apply_record-groups st r = elim (Option-cases (updated_groups r.kind r.group r.sources st.groups)) [
  | inl e ↦ rw (e, apply_record)
  | inr (groups, e) ↦ rw (e, apply_record)
]

-- After a record, traffic to its group is wanted exactly as the record asks, given what was wanted
-- before, and what is wanted of every other group is as it was.
pub apply_record-asks :
    (st : EndpointState) (r : MembershipRecord) (g source : IpAddr)
    → wants (apply_record st r).0.groups g source ≡ (
        if ip_eq g r.group
        then asks r.kind (contains source r.sources) (wants st.groups r.group source)
        else wants st.groups g source)
apply_record-asks st r g source =
    rw (apply_record-groups st r) (updated_asks r.kind r.group r.sources st.groups g source)
