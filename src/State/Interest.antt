-- ===== src/State/Interest.antt =====
-- `GroupInterest` and `EndpointState::apply_record`, against the filter that the membership
-- protocols (IGMPv3, MLDv2) define for a record.
use mathlib.Core.Logic.{ite}
use amt.Prelude.{
  Bool, true, false, not, ◌&&◌, ◌||◌, Option, none, some, List, [], ◌∷◌, if◌then◌else◌,
}
use amt.Address.{IpAddr}
use amt.Collections.BTreeSet
use amt.Collections.BTreeMap
use amt.Collections.Key.{ip_key}
use amt.Membership.{
  MembershipRecord, MembershipRecordKind, mode_is_include, mode_is_exclude, change_to_include,
  change_to_exclude, allow_new_sources, block_old_sources, legacy_report, legacy_leave,
}
use amt.State.{
  FilterMode, include, exclude, GroupInterest, Groups, EndpointState, interest_discrete,
}

unfoldable pub include_sources : List IpAddr → GroupInterest
include_sources sources = record { mode = include; sources = BTreeSet.extend [] sources }

unfoldable pub exclude_sources : List IpAddr → GroupInterest
exclude_sources sources = record { mode = exclude; sources = BTreeSet.extend [] sources }

abbrev pub mode_wants : FilterMode → Bool → Bool
mode_wants include listed = listed
mode_wants exclude listed = not listed

unfoldable pub wants_source : GroupInterest → IpAddr → Bool
wants_source i source = mode_wants i.mode (BTreeSet.contains source i.sources)

abbrev pub is_empty {ℓ} : {A : Type ℓ} → List A → Bool
is_empty [] = true
is_empty (x ∷ xs) = false

-- `before != after`.
abbrev differs : Option GroupInterest → Option GroupInterest → Bool
unfolding interest_discrete
differs before after = ite (interest_discrete before after) false true

-- `entry(group).or_insert_with(..)`.
abbrev pub interest_or_empty : Option GroupInterest → GroupInterest
unfolding include_sources
interest_or_empty none = include_sources []
interest_or_empty (some i) = i

abbrev pub allow_sources : FilterMode → GroupInterest → List IpAddr → GroupInterest
allow_sources include i sources = record i { sources = BTreeSet.extend i.sources sources }
allow_sources exclude i sources = record i { sources = BTreeSet.remove_each i.sources sources }

-- A group whose include list runs empty is removed.
abbrev pub block_sources : FilterMode → IpAddr → GroupInterest → List IpAddr → Groups → Groups
block_sources include group i sources groups =
    let left = BTreeSet.remove_each i.sources sources in
    if is_empty left
    then BTreeMap.remove group groups
    else BTreeMap.insert group (record i { sources = left }) groups
block_sources exclude group i sources groups =
    BTreeMap.insert group (record i { sources = BTreeSet.extend i.sources sources }) groups

abbrev pub block_present : Option GroupInterest → IpAddr → List IpAddr → Groups → Groups
block_present none group sources groups = groups
block_present (some i) group sources groups = block_sources i.mode group i sources groups

-- The groups after a record; `none` is the early return that leaves them alone.
unfoldable pub updated_groups : MembershipRecordKind → IpAddr → List IpAddr → Groups → Option Groups
unfolding include_sources exclude_sources interest_or_empty
updated_groups legacy_report group sources groups =
    some (BTreeMap.insert group (exclude_sources []) groups)
updated_groups legacy_leave group sources groups = some (BTreeMap.remove group groups)
updated_groups mode_is_include group sources groups =
    if is_empty sources
    then some (BTreeMap.remove group groups)
    else some (BTreeMap.insert group (include_sources sources) groups)
updated_groups change_to_include group sources groups =
    if is_empty sources
    then some (BTreeMap.remove group groups)
    else some (BTreeMap.insert group (include_sources sources) groups)
updated_groups mode_is_exclude group sources groups =
    some (BTreeMap.insert group (exclude_sources sources) groups)
updated_groups change_to_exclude group sources groups =
    some (BTreeMap.insert group (exclude_sources sources) groups)
updated_groups allow_new_sources group sources groups =
    let i = interest_or_empty (BTreeMap.get group groups) in
    if is_empty sources
    then none
    else some (BTreeMap.insert group (allow_sources i.mode i sources) groups)
updated_groups block_old_sources group sources groups =
    if is_empty sources
    then none
    else some (block_present (BTreeMap.get group groups) group sources groups)

unfoldable pub apply_record : EndpointState → MembershipRecord → EndpointState × Bool
unfolding updated_groups differs
apply_record st r = elim (updated_groups r.kind r.group r.sources st.groups) [
  | none ↦ (st, false)
  | some groups ↦ (
    record { groups = groups },
    differs (BTreeMap.get r.group st.groups) (BTreeMap.get r.group groups),
  )
]

-- Whether traffic of `source` to `group` is wanted.
abbrev pub interest_wants : Option GroupInterest → IpAddr → Bool
unfolding wants_source
interest_wants none source = false
interest_wants (some i) source = wants_source i source

abbrev pub wants : Groups → IpAddr → IpAddr → Bool
wants groups group source = interest_wants (BTreeMap.get group groups) source

-- What a record asks for, as a function of what was asked for before: `listed` says whether the
-- record names the source.
abbrev pub asks : MembershipRecordKind → Bool → Bool → Bool
asks mode_is_include listed before = listed
asks change_to_include listed before = listed
asks mode_is_exclude listed before = not listed
asks change_to_exclude listed before = not listed
asks allow_new_sources listed before = listed || before
asks block_old_sources listed before = before && not listed
asks legacy_report listed before = true
asks legacy_leave listed before = false
