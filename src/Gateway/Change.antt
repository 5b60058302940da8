-- ===== src/Gateway/Change.antt =====
-- What a datagram can do to the gateway, and what it never does.
use amt.Prelude.{
  ℕ, ◌≡◌, refl, arith, ◌⊎◌, Bool, true, Option, some, List, ok, err, ◌&&◌, ◌==◌, Bool-cases,
  Result-cases, inl, inr,
}
use amt.Address.{IpAddr, SocketAddr, same_family, socket_eq}
use amt.Collections.Key.{socket_eq_iff}
use amt.Ecn.{EcnCodepoint}
use amt.Protocol.{Message, GatewayEndpoint, ResponseMac}
use amt.Protocol.Codec.{decode}
use amt.Query.{validated_general_query}
use amt.Gateway.{
  discovering, awaiting_membership_query, established, Gateway, GatewayError, is_usable_unicast,
  is_discovering,
}
use amt.Gateway.Handle.{
  handle_advertisement, handle_query, check_query, handle_message, handle_datagram_with_ecn,
  expected_peer, expected_nonce, still_reported,
}

-- A Relay Advertisement answers the gateway's own discovery: its address becomes the relay's.
pub record Advertised (g : Gateway) (peer : SocketAddr) (nonce : ℕ) (address : IpAddr) (h : Gateway)
    : Type 0 where
  pub was_discovering : g.phase ≡ discovering
  pub answers : nonce ≡ g.config.discovery_nonce
  pub usable : is_usable_unicast address ≡ true
  pub family : same_family address peer.ip ≡ true
  pub next : h ≡ record g {
    relay_endpoint = some (record { ip = address; port = peer.port });
    phase = awaiting_membership_query;
  }

-- A Membership Query answers the request that the gateway waits for, or that of its session, and
-- carries a General Query that validates; the session is made anew.
pub record Queried (g : Gateway) (mac : ResponseMac) (nonce : ℕ) (gateway : Option GatewayEndpoint)
    (query : List ℕ) (h : Gateway) : Type 0 where
  pub relay : SocketAddr
  pub known : g.relay_endpoint ≡ some relay
  pub answers : expected_nonce g.config g.phase g.session ≡ some nonce
  pub valid : ℕ × List ℕ
  pub validated : validated_general_query g.config.protocol query ≡ ok valid
  pub next : h ≡ record g {
    session = some (record {
      response_mac = mac;
      request_nonce = nonce;
      gateway_endpoint = gateway;
      reported_memberships = still_reported g.session gateway;
    });
    phase = established;
  }

-- What a message from the expected peer makes of the gateway where it changes it.
abbrev pub Change : Gateway → SocketAddr → Message → Gateway → Type 0
Change g peer (Message.relay_advertisement nonce address) h = Advertised g peer nonce address h
Change g peer (Message.membership_query mac nonce limit gateway query) h =
    Queried g mac nonce gateway query h
Change g peer _ h = ⊥

handle_advertisement-Change :
    (g : Gateway) (peer : SocketAddr) (nonce : ℕ) (address : IpAddr)
    → ((handle_advertisement g peer nonce address).0 ≡ g)
      ⊎ Advertised g peer nonce address (handle_advertisement g peer nonce address).0
unfolding handle_advertisement
handle_advertisement-Change g peer nonce address =
    let usable = is_usable_unicast address && same_family address peer.ip in
    elim (Bool-cases (is_discovering g.phase && (nonce == g.config.discovery_nonce && usable))) [
      | inl e ↦ inr (record {
        was_discovering = ground arith;
        answers = ground arith;
        usable = ground arith;
        family = ground arith;
        next = ground arith;
      })
      | inr e ↦ inl (ground arith)
    ]

check_query-ok :
    (g : Gateway) (nonce : ℕ) (query : List ℕ) (checked : SocketAddr × (ℕ × List ℕ))
    → check_query g nonce query ≡ ok checked
    → (g.relay_endpoint ≡ some checked.0)
      × (expected_nonce g.config g.phase g.session ≡ some nonce)
      × (validated_general_query g.config.protocol query ≡ ok checked.1)
check_query-ok g nonce query checked h = ground arith

handle_query-Change :
    (g : Gateway) (mac : ResponseMac) (nonce : ℕ) (limit : Bool) (gateway : Option GatewayEndpoint)
    (query : List ℕ)
    → ((handle_query g mac nonce limit gateway query).0 ≡ g)
      ⊎ Queried g mac nonce gateway query (handle_query g mac nonce limit gateway query).0
unfolding handle_query
handle_query-Change g mac nonce limit gateway query =
    elim (Result-cases (check_query g nonce query)) [
      | inr (e, c) ↦ inl (rw (c, handle_query) refl)
      | inl (checked, c) ↦
          let (known, answers, validated) = check_query-ok g nonce query checked c in
          inr (record {
            relay = checked.0;
            known = known;
            answers = answers;
            valid = checked.1;
            validated = validated;
            next = rw (c, handle_query) refl;
          })
    ]

handle_message-Change :
    (g : Gateway) (peer : SocketAddr) (outer_ecn : EcnCodepoint) (message : Message)
    → ((handle_message g peer outer_ecn message).0 ≡ g)
      ⊎ Change g peer message (handle_message g peer outer_ecn message).0
unfolding handle_message
handle_message-Change g peer outer_ecn (Message.relay_advertisement nonce address) =
    handle_advertisement-Change g peer nonce address
handle_message-Change g peer outer_ecn (Message.membership_query mac nonce limit gateway query) =
    handle_query-Change g mac nonce limit gateway query
handle_message-Change g peer outer_ecn (Message.multicast_data packet) = inl refl
handle_message-Change g peer outer_ecn (Message.relay_discovery nonce) = inl refl
handle_message-Change g peer outer_ecn (Message.request nonce protocol ecn_capable) = inl refl
handle_message-Change g peer outer_ecn (Message.membership_update mac nonce update) = inl refl
handle_message-Change g peer outer_ecn (Message.teardown mac nonce gateway) = inl refl

-- A datagram changes the gateway only where it comes from the expected peer and decodes to a Relay
-- Advertisement for the gateway's discovery, with a usable address of the peer's family, which the
-- relay then has, or to a Membership Query with the nonce that the gateway waits for and a valid
-- General Query, which makes the session anew. All else of the gateway is as it was.
pub handle_datagram_with_ecn-Change :
    (g : Gateway) (peer : SocketAddr) (datagram : List ℕ) (outer_ecn : EcnCodepoint)
    → ((handle_datagram_with_ecn g peer datagram outer_ecn).0 ≡ g)
      ⊎ ((peer ≡ expected_peer g)
          × ((message : Message) × (decode datagram ≡ ok message)
              × Change g peer message (handle_datagram_with_ecn g peer datagram outer_ecn).0))
unfolding handle_datagram_with_ecn
handle_datagram_with_ecn-Change g peer datagram outer_ecn =
    elim (Bool-cases (socket_eq peer (expected_peer g))) [
      | inr e ↦ inl (rw e refl)
      | inl e ↦ elim (Result-cases (decode datagram)) [
        | inr (x, d) ↦ inl (rw (e, d) refl)
        | inl (message, d) ↦ elim (handle_message-Change g peer outer_ecn message) [
          | inl same ↦ inl (rw (e, d) same)
          | inr c ↦ inr ((socket_eq_iff peer (expected_peer g)).0 e, (message, d, rw (e, d) c))
        ]
      ]
    ]

handle_message_refused :
    (g : Gateway) (peer : SocketAddr) (outer_ecn : EcnCodepoint) (message : Message)
    (e : GatewayError)
    → (handle_message g peer outer_ecn message).1 ≡ err e
    → (handle_message g peer outer_ecn message).0 ≡ g
unfolding handle_message handle_advertisement handle_query
handle_message_refused g peer outer_ecn (Message.relay_advertisement nonce address) e h =
    ground arith
handle_message_refused g peer outer_ecn (Message.membership_query mac nonce limit gateway query) e
      h =
    ground arith
handle_message_refused g peer outer_ecn (Message.multicast_data packet) e h = refl
handle_message_refused g peer outer_ecn (Message.relay_discovery nonce) e h = refl
handle_message_refused g peer outer_ecn (Message.request nonce protocol ecn_capable) e h = refl
handle_message_refused g peer outer_ecn (Message.membership_update mac nonce update) e h = refl
handle_message_refused g peer outer_ecn (Message.teardown mac nonce gateway) e h = refl

-- A datagram that is refused leaves the gateway as it was.
pub handle_datagram_with_ecn_refused :
    (g : Gateway) (peer : SocketAddr) (datagram : List ℕ) (outer_ecn : EcnCodepoint)
    (e : GatewayError)
    → (handle_datagram_with_ecn g peer datagram outer_ecn).1 ≡ err e
    → (handle_datagram_with_ecn g peer datagram outer_ecn).0 ≡ g
unfolding handle_datagram_with_ecn
handle_datagram_with_ecn_refused g peer datagram outer_ecn e h =
    elim (Bool-cases (socket_eq peer (expected_peer g))) [
      | inr s ↦ rw s refl
      | inl s ↦ elim (Result-cases (decode datagram)) [
        | inr (x, d) ↦ rw (s, d) refl
        | inl (message, d) ↦
            rw (s, d) (handle_message_refused g peer outer_ecn message e (rw (s, d) at h))
      ]
    ]
