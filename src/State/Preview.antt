-- ===== src/State/Preview.antt =====
-- `preview_report` foretells `apply_report`.
use amt.Prelude.{
  ◌≡◌, refl, ap, ◌∙◌, arith, false, Option, none, some, List, if◌then◌else◌, inl, inr, Bool-cases,
}
use amt.Address.{SocketAddr}
use amt.Collections.BTreeMap.{
  get, insert, remove, insert_same, get-insert, get-remove, extensional, insert-IsSorted,
  remove-IsSorted, IsSorted,
}
use amt.Collections.Key.{socket_key}
use amt.Membership.{MembershipReport, MembershipRecord}
use amt.State.{EndpointState, Endpoints, RelayState, endpoint_discrete}
use amt.State.Interest.{is_empty}
use amt.State.Rollback.{get_equal}
use amt.State.Valid.{IsValid}
use amt.State.Index.{rebuild_indexes}
use amt.State.Ops.{
  apply_records, endpoints_after, endpoint_or_empty, apply_report, preview_report, endpoint_differs,
  is_some,
}

endpoint_differs-false :
    (current : Option EndpointState) (candidate : EndpointState)
    → endpoint_differs current candidate ≡ false
    → current ≡ some candidate
unfolding endpoint_differs
endpoint_differs-false none candidate h = cc
endpoint_differs-false (some st) candidate h = elim (endpoint_discrete st candidate) [
  | yes e ↦ ap some e
  | no n ↦ ground arith
]

-- Entering an endpoint that was absent and removing it again changes nothing.
removed_again :
    (endpoint : SocketAddr) (st : EndpointState) (m : Endpoints)
    → IsSorted m
    → get endpoint m ≡ none
    → remove endpoint (insert endpoint st m) ≡ m
removed_again endpoint st m s absent =
    extensional _ m (remove-IsSorted endpoint _ (insert-IsSorted endpoint st m s)) s λ e. ground (
      arith,
      get-remove e endpoint (insert endpoint st m),
      get-insert e endpoint st m,
      get_equal e endpoint m,
    )

is_some-false : (o : Option EndpointState) → is_some o ≡ false → o ≡ none
is_some-false none h = refl
is_some-false (some st) h = cc

unchanged_endpoints :
    (m : Endpoints) (endpoint : SocketAddr) (records : List MembershipRecord)
    → IsSorted m
    → (let current = get endpoint m in
        let candidate = (apply_records (endpoint_or_empty current) records).0 in
        (if is_empty candidate.groups then is_some current else endpoint_differs current candidate)
        ≡ false)
    → endpoints_after m endpoint records ≡ m
unfolding endpoints_after
unchanged_endpoints m endpoint records s h =
    let candidate = (apply_records (endpoint_or_empty (get endpoint m)) records).0 in
    elim (Bool-cases (is_empty candidate.groups)) [
      | inl e ↦
          rw e (removed_again endpoint candidate m s (is_some-false (get endpoint m) (rw e at h)))
      | inr e ↦ rw e (
          insert_same endpoint candidate m s
            (endpoint_differs-false (get endpoint m) candidate (rw e at h)))
    ]

-- In a valid state, a report that the preview calls unchanged leaves the state as it is, so that the
-- relay may skip it.
pub preview_report_unchanged :
    (s : RelayState) (endpoint : SocketAddr) (report : MembershipReport)
    → IsValid s
    → (preview_report s endpoint report).1 ≡ false
    → (apply_report s endpoint report).0 ≡ s
unfolding preview_report apply_report
preview_report_unchanged s endpoint report v h = elim (Bool-cases (is_empty report.records)) [
  | inl e ↦ rw e
  | inr e ↦ rw e (
      ap (λ (m : Endpoints). rebuild_indexes (record s { endpoints = m }))
        (unchanged_endpoints s.endpoints endpoint report.records v.sorted (rw e at h))
      ∙ v.indexed)
]

-- The preview counts the records that `apply_report` counts.
pub preview_report-apply_report :
    (s : RelayState) (endpoint : SocketAddr) (report : MembershipReport)
    → (preview_report s endpoint report).0 ≡ (apply_report s endpoint report).1
unfolding preview_report apply_report
preview_report-apply_report s endpoint report = ground arith
