-- ===== src/Handshake/Tests.antt =====
-- A gateway and a relay on one network. The digest of the test is constant.
use amt.Prelude.{◌≡◌, refl, arith, true, false, not, ◌&&◌, none, some, [], ◌∷◌, replicate}
use amt.Address.{v4, SocketAddr, is_multicast, is_unspecified, is_broadcast}
use amt.Collections.BTreeMap
use amt.Protocol.{igmpv3}
use amt.Query.{for_amt}
use amt.Query.Laws.{IsConfig}
use amt.State.Ops.{
  apply_report_limited, contains_endpoint, is_near_limits, is_ip_near_endpoint_limit,
}
use amt.State.Valid.{empty_state-IsValid}
use amt.Membership.Tests.{report, packet, report_built}
use amt.Gateway.{Gateway, established, is_usable_unicast}
use amt.Gateway.Discovery.{new_gateway}
use amt.Gateway.Memberships.{membership_update}
use amt.Relay.{Host, Relay}
use amt.Relay.Auth.{new, response_mac, refusing_new_endpoint}
use amt.Relay.Handle.{handle_datagram}
use amt.Handshake.{gateway_datagram, handshake, IsDigest, IsConnected}
use amt.Handshake.Establish.{CanConnect, handshake-IsConnected}
use amt.Handshake.Update.{membership_update-handle_datagram}

abbrev host : Host
host = record { hmac = λ key message. replicate 32 9 }

host-IsDigest : IsDigest host
host-IsDigest key message = refl

abbrev relay : Relay
relay =
    new
      (record {
        advertise_ipv4 = 0xc0000201;
        advertise_ipv6 = 1;
        secret = 1 ∷ 2 ∷ 3 ∷ [];
        include_gateway_address = true;
        ecn = true;
        limit = false;
        limits = record {
          max_endpoints = 80;
          max_endpoints_per_ip = 80;
          max_groups_per_endpoint = 80;
          max_sources_per_group = 80;
          max_total_endpoint_groups = 80;
          max_total_sources = 80;
          max_upstream_subscriptions = 80;
          max_records_per_report = 80;
        };
        secret_rotation_interval = some 10;
        general_query = for_amt;
      })
      0

abbrev peer : SocketAddr
peer = record { ip = v4 0xc6336407; port = 40000 }

abbrev gateway : Gateway
gateway =
    new_gateway
      (record {
        relay = record { ip = v4 0xc0000201; port = 2268 };
        fallback_relays = [];
        protocol = igmpv3;
        ecn = true;
        discovery_nonce = 17;
        request_nonce = 23;
      })
      1 1

for_amt-fits : IsConfig for_amt
unfolding is_multicast is_broadcast
for_amt-fits = record {
  igmp_source_fits = omega arith;
  igmp_unicast = refl;
  mld_source_fits = omega arith;
  mld_unicast = refl;
  igmp_max_response_code_fits = omega arith;
  mld_max_response_code_fits = omega arith;
  robustness_variable_fits = omega arith;
  query_interval_code_fits = omega arith;
}

can_connect : CanConnect host peer gateway relay
unfolding new_gateway is_usable_unicast is_multicast is_unspecified is_broadcast
can_connect = record {
  digest = host-IsDigest;
  phase = refl;
  unknown = refl;
  discovery_nonce_drawn = omega arith;
  discovery_nonce_fits = omega arith;
  request_nonce_fits = omega arith;
  port_fits = omega arith;
  advertised = omega arith;
  usable = refl;
  family = refl;
  query = for_amt-fits;
}

handshake-IsConnected_example :
    (let (g, r) = handshake host 5 20 none (some (7 ∷ 8 ∷ [])) peer gateway relay in
      IsConnected host peer g r × (r.state ≡ relay.state))
handshake-IsConnected_example =
    handshake-IsConnected host 5 20 none (some (7 ∷ 8 ∷ [])) peer gateway relay can_connect

abbrev connected_gateway : Gateway
connected_gateway = record gateway {
  phase = established;
  relay_endpoint = some (record { ip = v4 0xc0000201; port = 2268 });
  session = some (record {
    response_mac = replicate 6 9;
    request_nonce = 23;
    gateway_endpoint = none;
    reported_memberships = false;
  });
}

connected : IsConnected host peer connected_gateway relay
unfolding new_gateway response_mac
connected = record {
  relay_addr = record { ip = v4 0xc0000201; port = 2268 };
  known = refl;
  session = record {
    response_mac = replicate 6 9;
    request_nonce = 23;
    gateway_endpoint = none;
    reported_memberships = false;
  };
  held = refl;
  mac = refl;
  phase = refl;
}

admitted : (not (contains_endpoint relay.state peer) && refusing_new_endpoint relay peer.ip) ≡ false
unfolding refusing_new_endpoint is_near_limits is_ip_near_endpoint_limit contains_endpoint
    BTreeMap.get
admitted = refl

membership_update-handle_datagram_example :
    (handle_datagram host relay 12
      (some (7 ∷ 8 ∷ []))
      peer
      (gateway_datagram (membership_update connected_gateway report).1)).0.state
    ≡ (apply_report_limited relay.state peer report relay.config.limits).0
unfolding connected
membership_update-handle_datagram_example =
    membership_update-handle_datagram host 12 (some (7 ∷ 8 ∷ [])) peer connected_gateway relay
      report packet connected host-IsDigest (omega arith) empty_state-IsValid report_built
      (omega arith) (omega arith) admitted
