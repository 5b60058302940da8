-- ===== src/Gateway/Delivery.antt =====
-- Which packets the gateway delivers.
use amt.Prelude.{
  ℕ, ◌≡◌, refl, arith, Bool, true, false, Option, none, some, List, ok, Bool-cases, Result-cases,
  inl, inr, if◌then◌else◌, map_err, ◌>>=◌,
}
use amt.Address.{SocketAddr, socket_eq}
use amt.Collections.Key.{socket_eq_iff}
use amt.Ecn.{EcnCodepoint, EcnDecapsulation, is_drop, decapsulate_ecn}
use amt.Ip.{MulticastPacket, parse_multicast_packet}
use amt.Protocol.{Message}
use amt.Protocol.Codec.{decode}
use amt.State.Interest.{interest_wants}
use amt.State.Ops.{is_some, endpoint_interest}
use amt.Gateway.{Gateway, multicast_data, invalid_ecn}
use amt.Gateway.Handle.{
  handle_advertisement, handle_query, handle_data, handle_message, handle_datagram_with_ecn,
  deliver, reception_state_endpoint, expected_peer,
}

-- The inner packet is that of the datagram, with ECN off; with ECN on it is the decapsulated one.
abbrev pub Unwrapped : Bool → List ℕ → EcnCodepoint → List ℕ → Option EcnDecapsulation → Type 0
Unwrapped false inner outer_ecn packet ecn = (packet ≡ inner) × (ecn ≡ none)
Unwrapped true inner outer_ecn packet ecn =
    (e : EcnDecapsulation) × (ecn ≡ some e)
    × (is_drop e ≡ false)
    × (decapsulate_ecn inner outer_ecn ≡ ok (packet, e))

pub record Delivered (g : Gateway) (inner : List ℕ) (outer_ecn : EcnCodepoint) (packet : List ℕ)
    (ecn : Option EcnDecapsulation) : Type 0 where
  pub session_known : is_some g.session ≡ true
  pub parsed : MulticastPacket
  pub parses : parse_multicast_packet inner ≡ ok parsed
  pub wanted :
      interest_wants
        (endpoint_interest g.reception_state reception_state_endpoint parsed.group)
        parsed.source
      ≡ true
  pub unwrapped : Unwrapped g.config.ecn inner outer_ecn packet ecn

unwrap :
    (on : Bool) (inner : List ℕ) (outer_ecn : EcnCodepoint) (packet : List ℕ)
    (ecn : Option EcnDecapsulation)
    → (if on
        then (map_err invalid_ecn (decapsulate_ecn inner outer_ecn) >>= λ r. ok (deliver r))
        else ok (multicast_data inner none))
      ≡ ok (multicast_data packet ecn)
    → Unwrapped on inner outer_ecn packet ecn
unwrap false inner outer_ecn packet ecn h = ground arith
unwrap true inner outer_ecn packet ecn h = elim (Result-cases (decapsulate_ecn inner outer_ecn)) [
  | inl ((written, e), d) ↦
      (let kept : is_drop e ≡ false = ground arith in (e, ground arith, kept, ground arith))
  | inr (x, d) ↦ absurd (ground arith)
]

handle_data-Delivered :
    (g : Gateway) (inner : List ℕ) (outer_ecn : EcnCodepoint) (packet : List ℕ)
    (ecn : Option EcnDecapsulation)
    → handle_data g inner outer_ecn ≡ ok (multicast_data packet ecn)
    → Delivered g inner outer_ecn packet ecn
unfolding handle_data
handle_data-Delivered g inner outer_ecn packet ecn h =
    elim (Result-cases (parse_multicast_packet inner)) [
      | inl (parsed, p) ↦
          let interest =
            endpoint_interest g.reception_state reception_state_endpoint parsed.group in
          let wanted : interest_wants interest parsed.source ≡ true = ground arith in
          record {
            session_known = ground arith;
            parsed = parsed;
            parses = p;
            wanted = wanted;
            unwrapped = unwrap g.config.ecn inner outer_ecn packet ecn (ground arith);
          }
      | inr (x, p) ↦ absurd (ground arith)
    ]

handle_message-Delivered :
    (g : Gateway) (peer : SocketAddr) (outer_ecn : EcnCodepoint) (message : Message)
    (packet : List ℕ) (ecn : Option EcnDecapsulation)
    → (handle_message g peer outer_ecn message).1 ≡ ok (multicast_data packet ecn)
    → (inner : List ℕ) × (message ≡ Message.multicast_data inner)
      × Delivered g inner outer_ecn packet ecn
unfolding handle_message handle_advertisement handle_query
handle_message-Delivered g peer outer_ecn (Message.multicast_data inner) packet ecn h =
    (inner, refl, handle_data-Delivered g inner outer_ecn packet ecn h)
handle_message-Delivered g peer outer_ecn (Message.relay_advertisement nonce address) packet ecn h =
    absurd (ground arith)
handle_message-Delivered g peer outer_ecn (Message.membership_query mac nonce limit gateway query)
      packet ecn h =
    absurd (ground arith)
handle_message-Delivered g peer outer_ecn (Message.relay_discovery nonce) packet ecn h =
    absurd (ground arith)
handle_message-Delivered g peer outer_ecn (Message.request nonce protocol ecn_capable) packet ecn
      h =
    absurd (ground arith)
handle_message-Delivered g peer outer_ecn (Message.membership_update mac nonce update) packet ecn
      h =
    absurd (ground arith)
handle_message-Delivered g peer outer_ecn (Message.teardown mac nonce gateway) packet ecn h =
    absurd (ground arith)

-- A packet is delivered only where the datagram comes from the expected peer and decodes to
-- Multicast Data, the gateway has a session, and the packet in it parses as a multicast packet whose
-- source the gateway's own interest in its group wants. With ECN off, what is delivered is that
-- packet; with ECN on, it is the packet decapsulated with the outer codepoint, which is not a drop.
pub handle_datagram_with_ecn-Delivered :
    (g : Gateway) (peer : SocketAddr) (datagram : List ℕ) (outer_ecn : EcnCodepoint)
    (packet : List ℕ) (ecn : Option EcnDecapsulation)
    → (handle_datagram_with_ecn g peer datagram outer_ecn).1 ≡ ok (multicast_data packet ecn)
    → (peer ≡ expected_peer g)
      × ((inner : List ℕ) × (decode datagram ≡ ok (Message.multicast_data inner))
          × Delivered g inner outer_ecn packet ecn)
unfolding handle_datagram_with_ecn
handle_datagram_with_ecn-Delivered g peer datagram outer_ecn packet ecn h =
    elim (Bool-cases (socket_eq peer (expected_peer g))) [
      | inr s ↦ absurd (ground arith)
      | inl s ↦ elim (Result-cases (decode datagram)) [
        | inr (x, d) ↦ absurd (ground arith)
        | inl (message, d) ↦
            let (inner, same, delivered) =
              handle_message-Delivered g peer outer_ecn message packet ecn (ground arith) in
            ((socket_eq_iff peer (expected_peer g)).0 s, (inner, cc, delivered))
      ]
    ]
