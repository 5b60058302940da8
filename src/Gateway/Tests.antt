-- ===== src/Gateway/Tests.antt =====
-- A gateway that discovers, and one that gets a packet of a group that it has joined.
use amt.Prelude.{ℕ, ◌≡◌, ◌⊎◌, refl, arith, true, false, none, some, List, [], ◌∷◌, ok, err}
use amt.Address.{v4, SocketAddr, is_multicast, is_unspecified, is_broadcast}
use amt.Checksum.{add_word, sum_part, sum_parts, ones_complement_sum_parts, ones_complement_sum}
use amt.Collections.BTreeMap
use amt.Collections.BTreeSet
use amt.Ecn.{not_ect}
use amt.Ip.{parse_multicast_packet}
use amt.Protocol.{Message, igmpv3}
use amt.Protocol.Codec.{encode, decode}
use amt.State.{exclude}
use amt.State.Ops.{empty_state, endpoint_interest}
use amt.State.Interest.{wants_source}
use amt.Gateway.{GatewayConfig, Gateway, unexpected_request_nonce, established, multicast_data}
use amt.Gateway.Discovery.{new_gateway}
use amt.Gateway.Handle.{
  handle_datagram_with_ecn, handle_query, handle_data, reception_state_endpoint, expected_peer,
}
use amt.Gateway.Coherent.{IsCoherent, Reach, Step, reachable-IsCoherent}
use amt.Gateway.Change.{Change, handle_datagram_with_ecn-Change, handle_datagram_with_ecn_refused}
use amt.Gateway.Delivery.{Delivered, handle_datagram_with_ecn-Delivered}

abbrev relay_addr : SocketAddr
relay_addr = record { ip = v4 0xc0000201; port = 2268 }

abbrev config : GatewayConfig
config = record {
  relay = relay_addr;
  fallback_relays = [];
  protocol = igmpv3;
  ecn = false;
  discovery_nonce = 0;
  request_nonce = 0;
}

abbrev advertisement : List ℕ
advertisement = encode (Message.relay_advertisement 17 (v4 0xc0000201))

abbrev advertised : Gateway
advertised =
    (handle_datagram_with_ecn (new_gateway config 17 23) relay_addr advertisement not_ect).0

steps : Reach (new_gateway config 17 23) advertised
steps =
    Reach.next Reach.here (Step.receive (new_gateway config 17 23) relay_addr advertisement not_ect)

reachable-IsCoherent_example : IsCoherent advertised
reachable-IsCoherent_example =
    reachable-IsCoherent config 17 23 advertised (omega arith) (omega arith) steps

handle_datagram_with_ecn-Change_example :
    (advertised ≡ new_gateway config 17 23)
    ⊎ ((relay_addr ≡ expected_peer (new_gateway config 17 23))
        × ((message : Message) × (decode advertisement ≡ ok message)
            × Change (new_gateway config 17 23) relay_addr message advertised))
handle_datagram_with_ecn-Change_example =
    handle_datagram_with_ecn-Change (new_gateway config 17 23) relay_addr advertisement not_ect

-- A gateway that has joined 233.1.2.3.
abbrev joined : Gateway
joined = record {
  config = record config { discovery_nonce = 17; request_nonce = 23 };
  relay_candidates = relay_addr ∷ [];
  phase = established;
  relay_endpoint = some relay_addr;
  session = some (record {
    response_mac = 1 ∷ 2 ∷ 3 ∷ 4 ∷ 5 ∷ 6 ∷ [];
    request_nonce = 23;
    gateway_endpoint = none;
    reported_memberships = true;
  });
  reception_state = record empty_state {
    endpoints =
        (
          reception_state_endpoint,
          record { groups = (v4 0xe9010203, record { mode = exclude; sources = [] }) ∷ [] },
        )
        ∷ [];
  };
}

abbrev inner : List ℕ
inner =
    0x45 ∷ 0 ∷ 0 ∷ 21 ∷ 0 ∷ 0 ∷ 0 ∷ 0 ∷ 16 ∷ 17 ∷ 0xfd ∷ 0xc9 ∷ 192 ∷ 0 ∷ 2 ∷ 10 ∷ 233 ∷ 1 ∷ 2 ∷ 3
    ∷ 7 ∷ []

abbrev data_datagram : List ℕ
data_datagram = encode (Message.multicast_data inner)

delivers :
    (handle_datagram_with_ecn joined relay_addr data_datagram not_ect).1
    ≡ ok (multicast_data inner none)
unfolding handle_datagram_with_ecn handle_data encode decode parse_multicast_packet is_multicast
    is_unspecified is_broadcast ones_complement_sum ones_complement_sum_parts sum_parts sum_part
    add_word endpoint_interest BTreeMap.get BTreeSet.contains wants_source
delivers = refl

handle_datagram_with_ecn-Delivered_example :
    (relay_addr ≡ expected_peer joined)
    × ((packet : List ℕ) × (decode data_datagram ≡ ok (Message.multicast_data packet))
        × Delivered joined packet not_ect inner none)
handle_datagram_with_ecn-Delivered_example =
    handle_datagram_with_ecn-Delivered joined relay_addr data_datagram not_ect inner none delivers

abbrev stale_query : List ℕ
stale_query = encode (Message.membership_query (1 ∷ 2 ∷ 3 ∷ 4 ∷ 5 ∷ 6 ∷ []) 22 false none [])

refuses :
    (handle_datagram_with_ecn joined relay_addr stale_query not_ect).1
    ≡ err (unexpected_request_nonce 23 22)
unfolding handle_datagram_with_ecn handle_query encode decode
refuses = refl

handle_datagram_with_ecn_refused_example :
    (handle_datagram_with_ecn joined relay_addr stale_query not_ect).0 ≡ joined
handle_datagram_with_ecn_refused_example =
    handle_datagram_with_ecn_refused joined relay_addr stale_query not_ect
      (unexpected_request_nonce 23 22) refuses
