-- ===== src/Relay/Tests.antt =====
-- A relay that gets a Membership Update. The digest of the test is the key before the message.
use amt.Prelude.{
  ◌≤◌, ◌+◌, All, arith, ℕ, ◌≡◌, ◌⊎◌, true, false, Option, some, List, [], ◌∷◌, ◌++◌, ok,
}
use amt.Address.{v4, SocketAddr}
use amt.Protocol.{Message}
use amt.Protocol.Codec.{decode}
use amt.Query.{for_amt, query_interval}
use amt.State.Valid.{IsValid, empty_state-IsValid}
use amt.Relay.{Host, RelayConfig, Relay}
use amt.Relay.Auth.{new, response_mac, valid_response_mac, rotate_secret_if_due}
use amt.Relay.Handle.{handle_datagram}
use amt.Relay.Safety.{Outcome, handle_datagram-Outcome, handle_datagram-IsValid}
use amt.Relay.Rotation.{grace, Arrival, handle_each, handle_each-valid_response_mac}

abbrev pub host : Host
host = record { hmac = λ key message. key ++ message }

abbrev config : RelayConfig
config = record {
  advertise_ipv4 = 0xc0000201;
  advertise_ipv6 = 1;
  secret = 1 ∷ 2 ∷ 3 ∷ 4 ∷ 5 ∷ 6 ∷ [];
  include_gateway_address = true;
  ecn = true;
  limit = false;
  limits = record {
    max_endpoints = 8;
    max_endpoints_per_ip = 8;
    max_groups_per_endpoint = 8;
    max_sources_per_group = 8;
    max_total_endpoint_groups = 8;
    max_total_sources = 8;
    max_upstream_subscriptions = 8;
    max_records_per_report = 8;
  };
  secret_rotation_interval = some 10;
  general_query = for_amt;
}

abbrev pub relay : Relay
relay = new config 0

abbrev pub peer : SocketAddr
peer = record { ip = v4 7; port = 2268 }

abbrev pub drawn : Option (List ℕ)
drawn = some (9 ∷ 9 ∷ 9 ∷ 9 ∷ 9 ∷ 9 ∷ [])

abbrev pub update : List ℕ
update = 5 ∷ 0 ∷ 1 ∷ 2 ∷ 3 ∷ 4 ∷ 5 ∷ 6 ∷ 0 ∷ 0 ∷ 0 ∷ 1 ∷ []

abbrev arrivals : List Arrival
arrivals =
    record { now = 20; drawn = drawn; peer = peer; datagram = update }
    ∷ record { now = 70; drawn = some (8 ∷ 8 ∷ 8 ∷ 8 ∷ 8 ∷ 8 ∷ []); peer = peer; datagram = update }
    ∷ []

arrivals_within :
    All
      (λ a. (5 ≤ a.now) × (a.now ≤ 5 + grace relay.config.general_query.query_interval_code))
      arrivals
unfolding query_interval
arrivals_within = ground arith

last_within : 1_000_000_000 ≤ 5 + grace relay.config.general_query.query_interval_code
unfolding query_interval
last_within = ground arith

handle_each-valid_response_mac_example :
    valid_response_mac host
      (handle_each host relay arrivals)
      1_000_000_000
      (response_mac host relay (v4 7) 2268 1)
      (v4 7)
      2268
      1
    ≡ true
handle_each-valid_response_mac_example =
    handle_each-valid_response_mac host relay 5 1_000_000_000 arrivals (v4 7) 2268 1 arrivals_within
      last_within

handle_datagram-Outcome_example :
    ((handle_datagram host relay 20 drawn peer update).0.state ≡ relay.state)
    ⊎ ((message : Message) × (decode update ≡ ok message)
        × Outcome host
            (rotate_secret_if_due relay 20 drawn)
            20
            peer
            message
            (handle_datagram host relay 20 drawn peer update).0.state)
handle_datagram-Outcome_example = handle_datagram-Outcome host relay 20 drawn peer update

handle_datagram-IsValid_example : IsValid (handle_datagram host relay 20 drawn peer update).0.state
handle_datagram-IsValid_example =
    handle_datagram-IsValid host relay 20 drawn peer update empty_state-IsValid
