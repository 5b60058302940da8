-- ===== src/State/Valid.antt =====
-- The invariant of `RelayState`, kept by every operation.
use amt.Prelude.{
  ℕ, ◌≡◌, refl, ap, arith, Option, none, some, List, [], ◌∷◌, Result, Bool-cases, Option-cases,
  Result-cases, inl, inr,
}
use amt.Address.{IpAddr, SocketAddr}
use amt.Collections.BTreeSet.{remove_each}
use amt.Collections.BTreeMap.{
  get, insert, remove, IsSorted, insert-IsSorted, remove-IsSorted, remove_absent,
}
use amt.Collections.Key.{ip_key, socket_key}
use amt.Membership.{
  MembershipRecord, MembershipRecordKind, MembershipReport, block_old_sources, legacy_leave,
}
use amt.State.{
  include, exclude, FilterMode, GroupInterest, Groups, EndpointState, Endpoints, RelayState,
  RelayLimits, StateLimitError,
}
use amt.State.Bounds.{apply_report_limited-Within}
use amt.State.Interest.{updated_groups, apply_record, is_empty, block_sources, block_present}
use amt.State.Asked.{groups_after, apply_record-groups}
use amt.State.Coverage.{SortedGroups}
use amt.State.Index.{rebuild_indexes, index_endpoints, aggregate_of, subscriptions_of}
use amt.State.Rollback.{
  Outcome, apply_report_limited_rollback, IsIndexed, rebuild_indexes-IsIndexed,
  endpoints_after-IsSorted,
}
use amt.State.Ops.{
  apply_records, endpoints_after, endpoint_or_empty, apply_report, apply_report_limited,
  remove_endpoint, empty_state,
}

block_sources-IsSorted :
    (mode : FilterMode) (group : IpAddr) (i : GroupInterest) (sources : List IpAddr)
    (groups : Groups)
    → IsSorted groups
    → IsSorted (block_sources mode group i sources groups)
block_sources-IsSorted exclude group i sources groups s = insert-IsSorted group _ groups s
block_sources-IsSorted include group i sources groups s =
    let left = remove_each i.sources sources in
    ground (
      arith,
      insert-IsSorted group (record i { sources = left }) groups s,
      remove-IsSorted group groups s,
    )

block_present-IsSorted :
    (found : Option GroupInterest) (group : IpAddr) (sources : List IpAddr) (groups : Groups)
    → IsSorted groups
    → IsSorted (block_present found group sources groups)
block_present-IsSorted none group sources groups s = s
block_present-IsSorted (some i) group sources groups s =
    block_sources-IsSorted i.mode group i sources groups s

updated_groups-IsSorted :
    (kind : MembershipRecordKind) (group : IpAddr) (sources : List IpAddr) (groups : Groups)
    → IsSorted groups
    → IsSorted (groups_after groups (updated_groups kind group sources groups))
unfolding updated_groups
updated_groups-IsSorted legacy_leave group sources groups s = remove-IsSorted group groups s
updated_groups-IsSorted block_old_sources group [] groups s = s
updated_groups-IsSorted block_old_sources group (x ∷ xs) groups s =
    block_present-IsSorted (get group groups) group (x ∷ xs) groups s
updated_groups-IsSorted _ group [] groups s = search (s, insert-IsSorted, remove-IsSorted)
updated_groups-IsSorted _ group (x ∷ xs) groups s = insert-IsSorted group _ groups s

apply_records-IsSorted :
    (st : EndpointState) (records : List MembershipRecord)
    → IsSorted st.groups
    → IsSorted (apply_records st records).0.groups
unfolding apply_records
apply_records-IsSorted st [] s = s
apply_records-IsSorted st (r ∷ rest) s =
    apply_records-IsSorted (apply_record st r).0 rest
      (rw (apply_record-groups st r) (updated_groups-IsSorted r.kind r.group r.sources st.groups s))

get-SortedGroups :
    (endpoint : SocketAddr) (endpoints : Endpoints)
    → SortedGroups endpoints
    → IsSorted (endpoint_or_empty (get endpoint endpoints)).groups
unfolding get
get-SortedGroups endpoint [] s = tt
get-SortedGroups endpoint ((e, st) ∷ rest) s = ground (arith, get-SortedGroups endpoint rest s.1)

insert-SortedGroups :
    (endpoint : SocketAddr) (st : EndpointState) (endpoints : Endpoints)
    → IsSorted st.groups
    → SortedGroups endpoints
    → SortedGroups (insert endpoint st endpoints)
unfolding insert
insert-SortedGroups endpoint st [] h s = (h, tt)
insert-SortedGroups endpoint st ((e, w) ∷ rest) h s =
    ground (arith, h, s.0, s.1, insert-SortedGroups endpoint st rest h s.1)

remove-SortedGroups :
    (endpoint : SocketAddr) (endpoints : Endpoints)
    → SortedGroups endpoints
    → SortedGroups (remove endpoint endpoints)
unfolding remove
remove-SortedGroups endpoint [] s = tt
remove-SortedGroups endpoint ((e, w) ∷ rest) s =
    ground (arith, s.0, remove-SortedGroups endpoint rest s.1)

endpoints_after-SortedGroups :
    (endpoints : Endpoints) (endpoint : SocketAddr) (records : List MembershipRecord)
    → SortedGroups endpoints
    → SortedGroups (endpoints_after endpoints endpoint records)
unfolding endpoints_after
endpoints_after-SortedGroups endpoints endpoint records s =
    let old = endpoint_or_empty (get endpoint endpoints) in
    let st = (apply_records old records).0 in
    let entered =
      insert-SortedGroups endpoint st endpoints
        (apply_records-IsSorted old records (get-SortedGroups endpoint endpoints s)) s in
    ground (arith, entered, remove-SortedGroups endpoint (insert endpoint st endpoints) entered)

-- The maps are sorted, and the indexes are those of the endpoints.
pub record IsValid (s : RelayState) : Type 0 where
  pub indexed : IsIndexed s
  pub sorted : IsSorted s.endpoints
  pub groups_sorted : SortedGroups s.endpoints

pub empty_state-IsValid : IsValid empty_state
unfolding rebuild_indexes index_endpoints aggregate_of subscriptions_of
empty_state-IsValid = record { indexed = refl; sorted = tt; groups_sorted = tt }

rebuilt-IsValid :
    (s : RelayState) → IsSorted s.endpoints → SortedGroups s.endpoints → IsValid (rebuild_indexes s)
unfolding rebuild_indexes
rebuilt-IsValid s sorted groups = record {
  indexed = rebuild_indexes-IsIndexed s;
  sorted = sorted;
  groups_sorted = groups;
}

pair_eq : (p : Outcome) {r : Result StateLimitError ℕ} → p.1 ≡ r → p ≡ (p.0, r)
pair_eq p e = ap (λ (r : Result StateLimitError ℕ). (p.0, r)) e

-- Applying a report keeps the state valid.
pub apply_report-IsValid :
    (s : RelayState) (endpoint : SocketAddr) (report : MembershipReport)
    → IsValid s
    → IsValid (apply_report s endpoint report).0
unfolding apply_report
apply_report-IsValid s endpoint report v = elim (Bool-cases (is_empty report.records)) [
  | inl e ↦ rw e v
  | inr e ↦ rw e (
      rebuilt-IsValid (record s { endpoints = endpoints_after s.endpoints endpoint report.records })
        (endpoints_after-IsSorted s.endpoints endpoint report.records v.sorted)
        (endpoints_after-SortedGroups s.endpoints endpoint report.records v.groups_sorted))
]

-- Removing an endpoint keeps the state valid.
pub remove_endpoint-IsValid :
    (s : RelayState) (endpoint : SocketAddr) → IsValid s → IsValid (remove_endpoint s endpoint).0
unfolding remove_endpoint
remove_endpoint-IsValid s endpoint v = elim (Option-cases (get endpoint s.endpoints)) [
  | inl e ↦ rw (e, remove_absent endpoint s.endpoints e) v
  | inr (st, e) ↦ rw e (
      rebuilt-IsValid (record s { endpoints = remove endpoint s.endpoints })
        (remove-IsSorted endpoint s.endpoints v.sorted)
        (remove-SortedGroups endpoint s.endpoints v.groups_sorted))
]

-- A report under limits keeps the state valid, whether it is accepted or refused.
pub apply_report_limited-IsValid :
    (s : RelayState) (endpoint : SocketAddr) (report : MembershipReport) (limits : RelayLimits)
    → IsValid s
    → IsValid (apply_report_limited s endpoint report limits).0
apply_report_limited-IsValid s endpoint report limits v =
    elim (Result-cases (apply_report_limited s endpoint report limits).1) [
      | inl (n, e) ↦
          let (_, _, same, _) =
            apply_report_limited-Within s _ endpoint report limits n (pair_eq _ e) in
          rw (← same) (apply_report-IsValid s endpoint report v)
      | inr (x, e) ↦
          rw
            (apply_report_limited_rollback s _ endpoint report limits x v.indexed v.sorted
              (pair_eq _ e))
            v
    ]
