-- ===== src/State/Rollback.antt =====
-- `apply_report_limited` when it fails.
use amt.Prelude.{
  ℕ, ◌≡◌, refl, sym, ap, ◌∙◌, arith, true, false, Option, none, some, List, if◌then◌else◌, Result,
  ok, err, Bool-cases, inl, inr, Result-cases,
}
use amt.Address.{SocketAddr, socket_eq}
use amt.Collections.BTreeMap.{
  get, insert, get-insert, get-remove, IsSorted, insert-IsSorted, remove-IsSorted, extensional,
}
use amt.Collections.Key.{socket_key, socket_eq_iff}
use amt.Membership.{MembershipReport, MembershipRecord}
use amt.State.{EndpointState, Endpoints, RelayState, RelayLimits, StateLimitError}
use amt.State.Interest.{is_empty}
use amt.State.Index.{rebuild_indexes}
use amt.State.Ops.{
  endpoints_after, endpoint_or_empty, apply_report, apply_checked, apply_report_limited, restore,
  check_state, check_report, apply_records,
}

-- The indexes of a state are those of its endpoints.
abbrev pub IsIndexed : RelayState → Type 0
IsIndexed s = rebuild_indexes s ≡ s

pub rebuild_indexes-IsIndexed : (s : RelayState) → IsIndexed (rebuild_indexes s)
unfolding rebuild_indexes
rebuild_indexes-IsIndexed s = refl

endpoints_after-get :
    (endpoints : Endpoints) (endpoint : SocketAddr) (records : List MembershipRecord)
    (e : SocketAddr)
    → socket_eq e endpoint ≡ false
    → get e (endpoints_after endpoints endpoint records) ≡ get e endpoints
unfolding endpoints_after
endpoints_after-get endpoints endpoint records e h =
    let st = (apply_records (endpoint_or_empty (get endpoint endpoints)) records).0 in
    ground (
      arith,
      get-insert e endpoint st endpoints,
      get-remove e endpoint (insert endpoint st endpoints),
    )

pub endpoints_after-IsSorted :
    (endpoints : Endpoints) (endpoint : SocketAddr) (records : List MembershipRecord)
    → IsSorted endpoints
    → IsSorted (endpoints_after endpoints endpoint records)
unfolding endpoints_after
endpoints_after-IsSorted endpoints endpoint records s =
    let st = (apply_records (endpoint_or_empty (get endpoint endpoints)) records).0 in
    ground (
      arith,
      insert-IsSorted endpoint st endpoints s,
      remove-IsSorted endpoint (insert endpoint st endpoints),
    )

abbrev pub Outcome : Type 0
Outcome = RelayState × Result StateLimitError ℕ

pub ok-ne-err : {a : ℕ} {e : StateLimitError} → ok a ≡ err e → ⊥
ok-ne-err h = cc

restore-get :
    (found : Option EndpointState) (endpoint : SocketAddr) (endpoints : Endpoints) (e : SocketAddr)
    → get e (restore found endpoint endpoints)
      ≡ (if socket_eq e endpoint then found else get e endpoints)
unfolding restore
restore-get none endpoint endpoints e = get-remove e endpoint endpoints
restore-get (some st) endpoint endpoints e = get-insert e endpoint st endpoints

restore-IsSorted :
    (found : Option EndpointState) (endpoint : SocketAddr) (endpoints : Endpoints)
    → IsSorted endpoints
    → IsSorted (restore found endpoint endpoints)
unfolding restore
restore-IsSorted none endpoint endpoints s = remove-IsSorted endpoint endpoints s
restore-IsSorted (some st) endpoint endpoints s = insert-IsSorted endpoint st endpoints s

pub get_equal : (a b : SocketAddr) (m : Endpoints) → socket_eq a b ≡ true → get a m ≡ get b m
get_equal a b m h = rw ((socket_eq_iff a b).0 h)

-- Putting the old entry back undoes the report.
restore-endpoints_after :
    (endpoints : Endpoints) (endpoint : SocketAddr) (records : List MembershipRecord)
    → IsSorted endpoints
    → restore (get endpoint endpoints) endpoint (endpoints_after endpoints endpoint records)
      ≡ endpoints
restore-endpoints_after endpoints endpoint records s =
    extensional _ endpoints
      (restore-IsSorted _ endpoint _ (endpoints_after-IsSorted endpoints endpoint records s)) s
      λ e. ground (
        arith,
        restore-get (get endpoint endpoints) endpoint (endpoints_after endpoints endpoint records)
            e,
        endpoints_after-get endpoints endpoint records e,
        get_equal e endpoint endpoints,
      )

restore_same :
    (endpoints : Endpoints) (endpoint : SocketAddr)
    → IsSorted endpoints
    → restore (get endpoint endpoints) endpoint endpoints ≡ endpoints
restore_same endpoints endpoint s = extensional _ endpoints (restore-IsSorted _ endpoint _ s) s λ e.
    ground (
      arith,
      restore-get (get endpoint endpoints) endpoint endpoints e,
      get_equal e endpoint endpoints,
    )

-- The state that a failed report leaves, by the records of the report.
undone :
    (s : RelayState) (endpoint : SocketAddr) (report : MembershipReport)
    → IsIndexed s
    → IsSorted s.endpoints
    → let s' = (apply_report s endpoint report).0 in
      rebuild_indexes
        (record s' { endpoints = restore (get endpoint s.endpoints) endpoint s'.endpoints })
      ≡ s
unfolding apply_report rebuild_indexes
undone s endpoint report ix sorted = elim (Bool-cases (is_empty report.records)) [
  | inl none_left ↦ rw none_left (
      ap (λ (es : Endpoints). rebuild_indexes (record s { endpoints = es }))
        (restore_same s.endpoints endpoint sorted)
      ∙ ix)
  | inr some_left ↦ rw some_left (
      ap (λ (es : Endpoints). rebuild_indexes (record s { endpoints = es }))
        (restore-endpoints_after s.endpoints endpoint report.records sorted)
      ∙ ix)
]

apply_checked_rollback :
    (s t : RelayState) (endpoint : SocketAddr) (report : MembershipReport) (limits : RelayLimits)
    (e : StateLimitError)
    → IsIndexed s
    → IsSorted s.endpoints
    → apply_checked s endpoint report limits ≡ (t, err e)
    → t ≡ s
unfolding apply_checked
apply_checked_rollback s t endpoint report limits e ix sorted h =
    elim (Result-cases (check_state (apply_report s endpoint report).0 endpoint limits)) [
      | inl (_, c) ↦ absurd (ok-ne-err (ap (λ (p : Outcome). p.1) (rw (c, apply_checked) at h)))
      | inr (_, c) ↦
          sym (ap (λ (p : Outcome). p.0) (rw (c, apply_checked) at h))
          ∙ undone s endpoint report ix sorted
    ]

-- When a report is refused in a state whose indexes are up to date and whose endpoints are sorted,
-- for a limit on the report or on the state that it would lead to, the
-- state is the one before the report: its endpoints, its indexes and its counts.
pub apply_report_limited_rollback :
    (s t : RelayState) (endpoint : SocketAddr) (report : MembershipReport) (limits : RelayLimits)
    (e : StateLimitError)
    → IsIndexed s
    → IsSorted s.endpoints
    → apply_report_limited s endpoint report limits ≡ (t, err e)
    → t ≡ s
unfolding apply_report_limited
apply_report_limited_rollback s t endpoint report limits e ix sorted h =
    elim (Result-cases (check_report report limits)) [
      | inl (_, c) ↦
          apply_checked_rollback s t endpoint report limits e ix sorted
            (rw (c, apply_report_limited) at h)
      | inr (_, c) ↦ sym (ap (λ (p : Outcome). p.0) (rw (c, apply_report_limited) at h))
    ]
