-- ===== src/State/Bounds.antt =====
-- `apply_report_limited` when it succeeds.
use Prim.Native.String.{String}
use amt.Prelude.{ℕ, ◌≤◌, ◌≡◌, ap, arith, length, Result, ok, err, Result-cases, inl, inr}
use amt.Address.{SocketAddr}
use amt.Collections.BTreeMap.{get}
use amt.Collections.Key.{socket_key}
use amt.Membership.{MembershipReport}
use amt.State.{RelayState, RelayLimits, StateLimitError}
use amt.State.Rollback.{Outcome}
use amt.State.Ops.{
  endpoint_or_empty, apply_report, apply_checked, apply_report_limited, check_state, check_report,
  check_limit, endpoint_count_for_ip, most_sources,
}

-- What an accepted report leaves within its limits.
pub record Within (limits : RelayLimits) (s : RelayState) (endpoint : SocketAddr) : Type 0 where
  pub endpoints : length s.endpoints ≤ limits.max_endpoints
  pub endpoints_per_ip : endpoint_count_for_ip s endpoint.ip ≤ limits.max_endpoints_per_ip
  pub groups :
      length (endpoint_or_empty (get endpoint s.endpoints)).groups ≤ limits.max_groups_per_endpoint
  pub sources :
      most_sources (endpoint_or_empty (get endpoint s.endpoints)).groups
      ≤ limits.max_sources_per_group
  pub endpoint_groups : s.total_endpoint_groups ≤ limits.max_total_endpoint_groups
  pub all_sources : s.total_sources ≤ limits.max_total_sources
  pub subscriptions : length s.subscriptions ≤ limits.max_upstream_subscriptions

check_limit-ok :
    (resource : String) (requested limit : ℕ)
    → check_limit resource requested limit ≡ ok tt
    → requested ≤ limit
unfolding check_limit
check_limit-ok resource requested limit h = ground arith

check_state-Within :
    (s : RelayState) (endpoint : SocketAddr) (limits : RelayLimits)
    → check_state s endpoint limits ≡ ok tt
    → Within limits s endpoint
unfolding check_state check_limit
check_state-Within s endpoint limits h = record {
  endpoints = ground arith;
  endpoints_per_ip = ground arith;
  groups = ground arith;
  sources = ground arith;
  endpoint_groups = ground arith;
  all_sources = ground arith;
  subscriptions = ground arith;
}

err-ne-ok : {a : ℕ} {e : StateLimitError} → err e ≡ ok a → ⊥
err-ne-ok h = cc

abbrev Count : Type 0
Count = Result StateLimitError ℕ

ok-equal : {a b : ℕ} → ◌≡◌ {A = Count} (ok a) (ok b) → a ≡ b
ok-equal h = cc

pub check_report-ok :
    (report : MembershipReport) (limits : RelayLimits)
    → check_report report limits ≡ ok tt
    → length report.records ≤ limits.max_records_per_report
unfolding check_report check_limit
check_report-ok report limits h = ground arith

apply_checked-Within :
    (s t : RelayState) (endpoint : SocketAddr) (report : MembershipReport) (limits : RelayLimits)
    (applied : ℕ)
    → apply_checked s endpoint report limits ≡ (t, ok applied)
    → Within limits t endpoint
      × ((apply_report s endpoint report).0 ≡ t)
      × ((apply_report s endpoint report).1 ≡ applied)
unfolding apply_checked
apply_checked-Within s t endpoint report limits applied h =
    elim (Result-cases (check_state (apply_report s endpoint report).0 endpoint limits)) [
      | inl (u, c) ↦
          let r = rw (c, apply_checked) at h in
          let same = ap (λ (p : Outcome). p.0) r in
          (
            rw same at (check_state-Within (apply_report s endpoint report).0 endpoint limits c),
            same,
            ok-equal (ap (λ (p : Outcome). p.1) r),
          )
      | inr (_, c) ↦ absurd (err-ne-ok (ap (λ (p : Outcome). p.1) (rw (c, apply_checked) at h)))
    ]

-- A report that is accepted leaves every count of the state, and of the endpoint, within its limit,
-- has no more records than allowed, and does what the unlimited `apply_report` does.
pub apply_report_limited-Within :
    (s t : RelayState) (endpoint : SocketAddr) (report : MembershipReport) (limits : RelayLimits)
    (applied : ℕ)
    → apply_report_limited s endpoint report limits ≡ (t, ok applied)
    → Within limits t endpoint
      × (length report.records ≤ limits.max_records_per_report)
      × ((apply_report s endpoint report).0 ≡ t)
      × ((apply_report s endpoint report).1 ≡ applied)
unfolding apply_report_limited
apply_report_limited-Within s t endpoint report limits applied h =
    elim (Result-cases (check_report report limits)) [
      | inl (_, c) ↦
          let (within, state, count) =
            apply_checked-Within s t endpoint report limits applied
              (rw (c, apply_report_limited) at h) in
          (within, check_report-ok report limits c, state, count)
      | inr (_, c) ↦
          absurd (err-ne-ok (ap (λ (p : Outcome). p.1) (rw (c, apply_report_limited) at h)))
    ]
