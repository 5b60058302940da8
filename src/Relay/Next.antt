-- ===== src/Relay/Next.antt =====
-- The membership state that the handling of one message offers to commit.
use amt.Prelude.{
  ℕ, ◌≡◌, refl, arith, true, not, ◌&&◌, length, ◌⊎◌, Option, none, some, List, Bool-cases, inl, inr,
  ok, err, Result-cases,
}
use amt.Address.{IpAddr, SocketAddr}
use amt.Protocol.{ResponseMac, GatewayEndpoint}
use amt.Protocol.Codec.{as_ipv4_compatible}
use amt.Membership.{MembershipReport}
use amt.Membership.Parse.{parse_membership_report_with_limits}
use amt.State.{RelayState}
use amt.State.Ops.{apply_report_limited, preview_report, remove_endpoint, contains_endpoint}
use amt.Relay.{Host, Relay}
use amt.Relay.Auth.{valid_response_mac, refusing_new_endpoint}
use amt.Relay.Handle.{
  Prepared, accept_report, handle_update, handle_teardown, teardown_ip, unforwardable, parse_limits,
}

-- The state that a preparation offers, if it offers one.
abbrev pub next_of : Prepared → Option RelayState
next_of (err e) = none
next_of (ok (action, next_state)) = next_state

accept_report-next :
    (relay : Relay) (peer : SocketAddr) (bytes : ℕ) (report : MembershipReport)
    (group : Option IpAddr)
    → (next_of (accept_report relay peer bytes report group) ≡ none)
      ⊎ (next_of (accept_report relay peer bytes report group)
          ≡ some (apply_report_limited relay.state peer report relay.config.limits).0)
unfolding accept_report
accept_report-next relay peer bytes report (some group) = inl refl
accept_report-next relay peer bytes report none =
    elim (Bool-cases (preview_report relay.state peer report).1) [
      | inl e ↦
          elim (Result-cases (apply_report_limited relay.state peer report relay.config.limits).1) [
            | inl (n, r) ↦ inr (rw (e, r) refl)
            | inr (x, r) ↦ inl (rw (e, r) refl)
          ]
      | inr e ↦ inl (rw e refl)
    ]

-- The report in the update is applied for the peer, whose MAC is valid.
abbrev pub Applied : Host → Relay → ℕ → SocketAddr → ResponseMac → ℕ → List ℕ → RelayState → Type 0
Applied host relay now peer mac nonce update next_state =
    (valid_response_mac host relay now mac peer.ip peer.port nonce ≡ true)
    × ((report : MembershipReport) × (parse_membership_report_with_limits update
            (parse_limits relay.config.limits)
          ≡ ok report)
        × (next_state ≡ (apply_report_limited relay.state peer report relay.config.limits).0))

pub handle_update-next :
    (host : Host) (relay : Relay) (now : ℕ) (peer : SocketAddr) (mac : ResponseMac) (nonce : ℕ)
    (update : List ℕ)
    → (next_of (handle_update host relay now peer mac nonce update) ≡ none)
      ⊎ ((next_state : RelayState) × (next_of (handle_update host relay now peer mac nonce update)
            ≡ some next_state)
          × Applied host relay now peer mac nonce update next_state)
unfolding handle_update
handle_update-next host relay now peer mac nonce update =
    elim (Bool-cases (valid_response_mac host relay now mac peer.ip peer.port nonce)) [
      | inr e ↦ inl (rw e refl)
      | inl e ↦
          elim (Bool-cases
            (not (contains_endpoint relay.state peer) && refusing_new_endpoint relay peer.ip)) [
              | inl r ↦ inl (rw (e, r) refl)
              | inr r ↦
                  elim (Result-cases (
                    parse_membership_report_with_limits update
                      (parse_limits relay.config.limits))) [
                        | inr (x, p) ↦ inl (rw (e, r, p) refl)
                        | inl (report, p) ↦
                            elim (accept_report-next relay peer (length update) report
                              (unforwardable report.records)) [
                                | inl q ↦ inl (rw (e, r, p) q)
                                | inr q ↦ inr (_, (rw (e, r, p) q), (e, (report, p, refl)))
                              ]
                      ]
            ]
    ]

-- The endpoint that a Teardown names.
abbrev pub named_endpoint : GatewayEndpoint → SocketAddr
named_endpoint gateway = record {
  ip = teardown_ip gateway.address (as_ipv4_compatible gateway.address);
  port = gateway.port;
}

-- The endpoint is removed, and the MAC is its own.
abbrev pub Removed : Host → Relay → ℕ → ResponseMac → ℕ → GatewayEndpoint → RelayState → Type 0
Removed host relay now mac nonce gateway next_state =
    (valid_response_mac host relay now mac (named_endpoint gateway).ip gateway.port nonce ≡ true)
    × (next_state ≡ (remove_endpoint relay.state (named_endpoint gateway)).0)

pub handle_teardown-next :
    (host : Host) (relay : Relay) (now : ℕ) (mac : ResponseMac) (nonce : ℕ)
    (gateway : GatewayEndpoint)
    → (next_of (handle_teardown host relay now mac nonce gateway).1 ≡ none)
      ⊎ ((next_state : RelayState) × (next_of (handle_teardown host relay now mac nonce gateway).1
            ≡ some next_state)
          × Removed host relay now mac nonce gateway next_state)
unfolding handle_teardown remove_endpoint contains_endpoint
handle_teardown-next host relay now mac nonce gateway =
    elim (Bool-cases
      (valid_response_mac host relay now mac (named_endpoint gateway).ip gateway.port nonce)) [
        | inr e ↦ inl (rw e refl)
        | inl e ↦ elim (Bool-cases (contains_endpoint relay.state (named_endpoint gateway))) [
          | inr r ↦ inl (rw (e, r) refl)
          | inl r ↦
              inr (
                (remove_endpoint relay.state (named_endpoint gateway)).0,
                rw (e, r) refl,
                (e, refl),
              )
        ]
      ]

pub handle_teardown-state :
    (host : Host) (relay : Relay) (now : ℕ) (mac : ResponseMac) (nonce : ℕ)
    (gateway : GatewayEndpoint)
    → (handle_teardown host relay now mac nonce gateway).0.state ≡ relay.state
unfolding handle_teardown
handle_teardown-state host relay now mac nonce gateway = ground arith
