-- ===== src/Gateway/Coherent.antt =====
-- What holds of every gateway that its operations lead to: the phase, the relay's endpoint and the
-- session fit together, and no nonce is 0.
use amt.Prelude.{
  ℕ, ◌<◌, ◌≡◌, refl, arith, Bool, Option, none, some, List, ok, err, Bool-cases, Result-cases, inl,
  inr,
}
use amt.Address.{IpAddr, SocketAddr, socket_eq}
use amt.Ecn.{EcnCodepoint}
use amt.Protocol.{Message, GatewayEndpoint, ResponseMac}
use amt.Protocol.Codec.{decode}
use amt.Membership.{MembershipReport}
use amt.State.Interest.{is_empty}
use amt.State.Valid.{IsValid, empty_state-IsValid, apply_report-IsValid}
use amt.Gateway.{
  GatewayConfig, GatewayPhase, discovering, awaiting_membership_query, established, GatewaySession,
  Gateway,
}
use amt.Gateway.Discovery.{
  Handled, new_gateway, begin_query_cycle, restart_discovery, replace_relay_candidates,
}
use amt.Gateway.Handle.{
  handle_advertisement, handle_query, handle_message, handle_datagram_with_ecn, expected_peer,
  reception_state_endpoint,
}
use amt.Gateway.Memberships.{
  membership_update, replace_memberships, replacing_report, sent_some, join_group,
}

-- Which endpoint and session stand beside a phase: none while discovering, an endpoint while
-- awaiting a query, and once established also a session of the latest request.
abbrev pub Fits : GatewayPhase → Option SocketAddr → Option GatewaySession → ℕ → Type 0
Fits discovering none none nonce = Unit {0}
Fits awaiting_membership_query (some relay) session nonce = Unit {0}
Fits established (some relay) (some session) nonce = session.request_nonce ≡ nonce
Fits _ _ _ nonce = ⊥

pub record IsCoherent (g : Gateway) : Type 0 where
  pub fits : Fits g.phase g.relay_endpoint g.session g.config.request_nonce
  pub discovery_nonce_drawn : 0 < g.config.discovery_nonce
  pub request_nonce_drawn : 0 < g.config.request_nonce
  pub reception_valid : IsValid g.reception_state

pub new_gateway-IsCoherent :
    (config : GatewayConfig) (d r : ℕ) → 0 < d → 0 < r → IsCoherent (new_gateway config d r)
unfolding new_gateway
new_gateway-IsCoherent config d r hd hr = record {
  fits = tt;
  discovery_nonce_drawn = ground arith;
  request_nonce_drawn = ground arith;
  reception_valid = empty_state-IsValid;
}

pub handle_advertisement-IsCoherent :
    (g : Gateway) (peer : SocketAddr) (nonce : ℕ) (address : IpAddr)
    → IsCoherent g
    → IsCoherent (handle_advertisement g peer nonce address).0
unfolding handle_advertisement
handle_advertisement-IsCoherent g peer nonce address c = ground arith

pub handle_query-IsCoherent :
    (g : Gateway) (mac : ResponseMac) (nonce : ℕ) (limit : Bool) (gateway : Option GatewayEndpoint)
    (query : List ℕ)
    → IsCoherent g
    → IsCoherent (handle_query g mac nonce limit gateway query).0
unfolding handle_query
handle_query-IsCoherent g mac nonce limit gateway query c = ground arith

begin_query_cycle-IsCoherent :
    (g : Gateway) (drawn : ℕ) → 0 < drawn → IsCoherent g → IsCoherent (begin_query_cycle g drawn).0
unfolding begin_query_cycle
begin_query_cycle-IsCoherent g drawn h c = ground arith

restart_discovery-IsCoherent :
    (g : Gateway) (d r : ℕ) → 0 < d → 0 < r → IsCoherent g → IsCoherent (restart_discovery g d r).0
unfolding restart_discovery
restart_discovery-IsCoherent g d r hd hr c = ground arith

replace_relay_candidates-IsCoherent :
    (g : Gateway) (relays : List SocketAddr)
    → IsCoherent g
    → IsCoherent (replace_relay_candidates g relays).0
unfolding replace_relay_candidates
replace_relay_candidates-IsCoherent g relays c = ground arith

membership_update-IsCoherent :
    (g : Gateway) (report : MembershipReport)
    → IsCoherent g
    → IsCoherent (membership_update g report).0
unfolding membership_update
membership_update-IsCoherent g report c =
    ground (arith, apply_report-IsValid g.reception_state reception_state_endpoint report)

sent_some-gateway : (h : Handled) → (sent_some h).0 ≡ h.0
sent_some-gateway (g, ok sent) = refl
sent_some-gateway (g, err e) = refl

replace_memberships-IsCoherent :
    (g : Gateway) (report : MembershipReport)
    → IsCoherent g
    → IsCoherent (replace_memberships g report).0
unfolding replace_memberships
replace_memberships-IsCoherent g report c =
    let replacing = replacing_report g report in
    elim (Bool-cases (is_empty replacing.records)) [
      | inl e ↦ rw e c
      | inr e ↦
          rw (e, sent_some-gateway (membership_update g replacing))
            (membership_update-IsCoherent g replacing c)
    ]

join_group-IsCoherent :
    (g : Gateway) (group : IpAddr) (source : Option IpAddr)
    → IsCoherent g
    → IsCoherent (join_group g group source).0
unfolding join_group
join_group-IsCoherent g group source c = membership_update-IsCoherent g _ c

handle_message-IsCoherent :
    (g : Gateway) (peer : SocketAddr) (outer_ecn : EcnCodepoint) (message : Message)
    → IsCoherent g
    → IsCoherent (handle_message g peer outer_ecn message).0
unfolding handle_message
handle_message-IsCoherent g peer outer_ecn (Message.relay_advertisement nonce address) c =
    handle_advertisement-IsCoherent g peer nonce address c
handle_message-IsCoherent g peer outer_ecn (Message.membership_query mac nonce limit gateway query)
      c =
    handle_query-IsCoherent g mac nonce limit gateway query c
handle_message-IsCoherent g peer outer_ecn (Message.multicast_data packet) c = c
handle_message-IsCoherent g peer outer_ecn (Message.relay_discovery nonce) c = c
handle_message-IsCoherent g peer outer_ecn (Message.request nonce protocol ecn_capable) c = c
handle_message-IsCoherent g peer outer_ecn (Message.membership_update mac nonce update) c = c
handle_message-IsCoherent g peer outer_ecn (Message.teardown mac nonce gateway) c = c

handle_datagram_with_ecn-IsCoherent :
    (g : Gateway) (peer : SocketAddr) (datagram : List ℕ) (outer_ecn : EcnCodepoint)
    → IsCoherent g
    → IsCoherent (handle_datagram_with_ecn g peer datagram outer_ecn).0
unfolding handle_datagram_with_ecn
handle_datagram_with_ecn-IsCoherent g peer datagram outer_ecn c =
    elim (Bool-cases (socket_eq peer (expected_peer g))) [
      | inr e ↦ rw e c
      | inl e ↦ elim (Result-cases (decode datagram)) [
        | inl (message, d) ↦ rw (e, d) (handle_message-IsCoherent g peer outer_ecn message c)
        | inr (x, d) ↦ rw (e, d) c
      ]
    ]

-- One call of a method that changes the gateway; a nonce that is drawn is not 0.
pub data Step : Gateway → Gateway → Type 0 where
  receive :
      (g : Gateway) (peer : SocketAddr) (datagram : List ℕ) (outer_ecn : EcnCodepoint)
      → Step g (handle_datagram_with_ecn g peer datagram outer_ecn).0
  ask : (g : Gateway) (drawn : ℕ) → 0 < drawn → Step g (begin_query_cycle g drawn).0
  restart : (g : Gateway) (d r : ℕ) → 0 < d → 0 < r → Step g (restart_discovery g d r).0
  replace : (g : Gateway) (relays : List SocketAddr) → Step g (replace_relay_candidates g relays).0
  update : (g : Gateway) (report : MembershipReport) → Step g (membership_update g report).0
  update_all : (g : Gateway) (report : MembershipReport) → Step g (replace_memberships g report).0
  join :
      (g : Gateway) (group : IpAddr) (source : Option IpAddr) → Step g (join_group g group source).0

pub data Reach (g : Gateway) : Gateway → Type 0 where
  here : Reach g g
  next : {h k : Gateway} → Reach g h → Step h k → Reach g k

Step-IsCoherent : {g h : Gateway} → Step g h → IsCoherent g → IsCoherent h
Step-IsCoherent (receive g peer datagram outer_ecn) c =
    handle_datagram_with_ecn-IsCoherent g peer datagram outer_ecn c
Step-IsCoherent (ask g drawn h) c = begin_query_cycle-IsCoherent g drawn h c
Step-IsCoherent (restart g d r hd hr) c = restart_discovery-IsCoherent g d r hd hr c
Step-IsCoherent (replace g relays) c = replace_relay_candidates-IsCoherent g relays c
Step-IsCoherent (update g report) c = membership_update-IsCoherent g report c
Step-IsCoherent (update_all g report) c = replace_memberships-IsCoherent g report c
Step-IsCoherent (join g group source) c = join_group-IsCoherent g group source c

Reach-IsCoherent : {g h : Gateway} → Reach g h → IsCoherent g → IsCoherent h
Reach-IsCoherent here c = c
Reach-IsCoherent (next before step) c = Step-IsCoherent step (Reach-IsCoherent before c)

-- In every gateway that calls of its methods lead to from a new one, the phase fits the relay's
-- endpoint and the session: none of both while it discovers, an endpoint while it awaits a query,
-- and a session of the latest request once it is established. Its nonces are not 0, and the state of
-- its own interests is valid.
pub reachable-IsCoherent :
    (config : GatewayConfig) (d r : ℕ) (g : Gateway)
    → 0 < d
    → 0 < r
    → Reach (new_gateway config d r) g
    → IsCoherent g
reachable-IsCoherent config d r g hd hr reach =
    Reach-IsCoherent reach (new_gateway-IsCoherent config d r hd hr)
