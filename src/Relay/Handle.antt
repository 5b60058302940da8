-- ===== src/Relay/Handle.antt =====
-- The relay's answer to a datagram: `prepare_datagram` and `handle_datagram`, and what they call.
use amt.Prelude.{
  ℕ, false, not, ◌&&◌, Option, none, some, List, [], ◌∷◌, Result, ok, err, ◌>>=◌, map_err,
  if◌then◌else◌, length, ◌==◌,
}
use amt.Prelude.{Bool}
use amt.Address.{IpAddr, v4, v6, SocketAddr}
use amt.Collections.BTreeMap
use amt.Collections.Key.{socket_key}
use amt.Protocol.{Message, ResponseMac, GatewayAddress, GatewayEndpoint}
use amt.Protocol.Codec.{encode, decode, from_ip_addr, as_ipv4_compatible, as_ipv6}
use amt.Membership.{MembershipRecord, MembershipReport, MembershipParseLimits, MembershipParseError}
use amt.Membership.Parse.{parse_membership_report_with_limits}
use amt.Ip.{is_amt_forwardable_group}
use amt.Query.{build_general_query}
use amt.State.{RelayState, RelayLimits}
use amt.State.Ops.{contains_endpoint, preview_report, apply_report_limited, remove_endpoint}
use amt.Relay.{
  Host, Relay, RelayAction, send, accepted_membership_update, accepted_teardown, rejected_auth,
  ignored, RelayError, decode_error, membership_error, resource_limit, zero_nonce,
  advertised_addr_for,
}
use amt.Relay.Auth.{
  response_mac, valid_response_mac, refusing_new_endpoint, rotate_secret_if_due,
  remember_gateway_ecn_capability,
}

-- The address that a Teardown names.
abbrev pub teardown_ip : GatewayAddress → Option ℕ → IpAddr
unfolding as_ipv6
teardown_ip address (some ip) = v4 ip
teardown_ip address none = v6 (as_ipv6 address)

-- The first group that AMT does not forward.
unfoldable pub unforwardable : List MembershipRecord → Option IpAddr
unforwardable [] = none
unforwardable (r ∷ rest) =
    let found = unforwardable rest in
    if not (is_amt_forwardable_group r.group) then some r.group else found

abbrev pub Prepared : Type 0
Prepared = Result RelayError (RelayAction × Option RelayState)

unfoldable pub accept_report : Relay → SocketAddr → ℕ → MembershipReport → Option IpAddr → Prepared
unfolding preview_report apply_report_limited
accept_report relay peer bytes report (some group) =
    err (membership_error (MembershipParseError.invalid_multicast_group group))
accept_report relay peer bytes report none =
    let (records_applied, changed) = preview_report relay.state peer report in
    if not changed
    then ok (
      accepted_membership_update report.protocol bytes records_applied relay.state.subscriptions,
      none,
    )
    else (let (next_state, applied) =
          apply_report_limited relay.state peer report relay.config.limits in
        map_err resource_limit applied >>= λ n. ok (
          accepted_membership_update report.protocol bytes records_applied next_state.subscriptions,
          some next_state,
        ))

-- The limits of a report's parser, from those of the relay.
abbrev pub parse_limits : RelayLimits → MembershipParseLimits
parse_limits limits = record {
  max_records = limits.max_records_per_report;
  max_sources_per_record = limits.max_sources_per_group;
}

unfoldable pub handle_update : Host → Relay → ℕ → SocketAddr → ResponseMac → ℕ → List ℕ → Prepared
unfolding valid_response_mac contains_endpoint refusing_new_endpoint accept_report unforwardable
handle_update host relay now peer mac nonce update =
    if not (valid_response_mac host relay now mac peer.ip peer.port nonce)
    then ok (rejected_auth, none)
    else if not (contains_endpoint relay.state peer) && refusing_new_endpoint relay peer.ip
    then ok (ignored, none)
    else (map_err membership_error
          (parse_membership_report_with_limits update (parse_limits relay.config.limits))
        >>= λ report.
            accept_report relay peer (length update) report (unforwardable report.records))

unfoldable pub handle_teardown :
    Host → Relay → ℕ → ResponseMac → ℕ → GatewayEndpoint → Relay × Prepared
unfolding valid_response_mac contains_endpoint remove_endpoint teardown_ip as_ipv4_compatible
handle_teardown host relay now mac nonce gateway =
    let ip = teardown_ip gateway.address (as_ipv4_compatible gateway.address) in
    let endpoint : SocketAddr = record { ip = ip; port = gateway.port } in
    let relay' = record relay {
      gateway_ecn_capabilities = BTreeMap.remove endpoint relay.gateway_ecn_capabilities;
    } in
    let (next_state, removed) = remove_endpoint relay.state endpoint in
    if not (valid_response_mac host relay now mac ip gateway.port nonce)
    then (relay, ok (rejected_auth, none))
    else if not (contains_endpoint relay.state endpoint)
    then (relay', ok (accepted_teardown gateway false, none))
    else (
      relay',
      ok (accepted_teardown gateway removed, (if removed then some next_state else none)),
    )

unfoldable pub handle_message : Host → Relay → ℕ → SocketAddr → Message → Relay × Prepared
unfolding remember_gateway_ecn_capability response_mac refusing_new_endpoint from_ip_addr encode
    handle_update handle_teardown
handle_message host relay now peer (Message.relay_discovery nonce) = (
  relay,
  (if nonce == 0
      then err zero_nonce
      else ok (
        send
            (encode (Message.relay_advertisement nonce (advertised_addr_for relay.config peer.ip))),
        none,
      )),
)
handle_message host relay now peer (Message.request nonce protocol ecn_capable) =
    let relay' = remember_gateway_ecn_capability relay now peer ecn_capable in
    let gateway : GatewayEndpoint = record { port = peer.port; address = from_ip_addr peer.ip } in
    (
      relay',
      ok (
        send (
            encode (
              Message.membership_query (response_mac host relay' peer.ip peer.port nonce) nonce
                (refusing_new_endpoint relay' peer.ip)
                (if relay'.config.include_gateway_address then some gateway else none)
                (build_general_query protocol relay'.config.general_query))),
        none,
      ),
    )
handle_message host relay now peer (Message.membership_update mac nonce update) =
    (relay, handle_update host relay now peer mac nonce update)
handle_message host relay now peer (Message.teardown mac nonce gateway) =
    handle_teardown host relay now mac nonce gateway
handle_message host relay now peer (Message.relay_advertisement nonce address) =
    (relay, ok (ignored, none))
handle_message host relay now peer (Message.membership_query mac nonce limit gateway query) =
    (relay, ok (ignored, none))
handle_message host relay now peer (Message.multicast_data packet) = (relay, ok (ignored, none))

-- The relay, changed but for its membership state, and the membership state to commit.
unfoldable pub prepare_datagram :
    Host → Relay → ℕ → Option (List ℕ) → SocketAddr → List ℕ → Relay × Prepared
unfolding rotate_secret_if_due decode handle_message
prepare_datagram host relay now drawn peer datagram =
    let relay' = rotate_secret_if_due relay now drawn in
    elim (decode datagram) [
      | ok message ↦ handle_message host relay' now peer message
      | err e ↦ (relay', err (decode_error e))
    ]

abbrev pub commit_state : Relay → RelayState → Relay
commit_state relay state = record relay { state = state }

abbrev pub commit : Relay → Prepared → Relay × Result RelayError RelayAction
commit relay (err e) = (relay, err e)
commit relay (ok (action, none)) = (relay, ok action)
commit relay (ok (action, some next_state)) = (commit_state relay next_state, ok action)

unfoldable pub handle_datagram :
    Host → Relay → ℕ → Option (List ℕ) → SocketAddr → List ℕ → Relay × Result RelayError RelayAction
unfolding prepare_datagram
handle_datagram host relay now drawn peer datagram =
    let (relay', prepared) = prepare_datagram host relay now drawn peer datagram in
    commit relay' prepared

unfoldable pub remove_gateway : Relay → SocketAddr → Relay × Bool
unfolding remove_endpoint
remove_gateway relay endpoint =
    let (next_state, removed) = remove_endpoint relay.state endpoint in
    (
      record relay {
        gateway_ecn_capabilities = BTreeMap.remove endpoint relay.gateway_ecn_capabilities;
        state = next_state;
      },
      removed,
    )
