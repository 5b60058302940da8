-- ===== src/Pmtu/Sender.antt =====
-- When pmtu.rs sends feedback. The raw socket that sends it is a library: `transmit` holds what
-- sending a datagram gives, the number of bytes that were sent or none for an error.
use Prim.Native.Nat.{bit_and}
use amt.Prelude.{
  ℕ, zero, suc, ◌+◌, ◌*◌, Bool, true, false, not, ◌&&◌, ◌||◌, Option, none, some, List, Result, ok,
  err, ◌>>=◌, if◌then◌else◌, length, get_elem?, ltb, leb, ◌==◌,
}
use amt.Prelude.Bytes.{byte_at}
use amt.Address.{IpAddr, v4, v6, same_family, is_multicast, is_unspecified}
use amt.Ip.{MulticastPacket, parse_multicast_packet}
use amt.Pmtu.{
  PmtuFeedbackSender, PmtuFeedbackOutcome, sent, rate_limited, suppressed,
  address_family_unavailable, PmtuFeedbackError, invalid_packet, invalid_local_address, transport,
}
use amt.Pmtu.Limiter.{new_limiter, allow}
use amt.Pmtu.Feedback.{build_pmtu_feedback}

-- One extension header: the next header and the offset behind it.
abbrev pub extension_end : List ℕ → ℕ → (ℕ → ℕ) → Option (ℕ × ℕ)
extension_end packet offset len = elim (get_elem? packet offset) [
  | none ↦ none
  | some next ↦ elim (get_elem? packet (offset + 1)) [
    | none ↦ none
    | some n ↦ some (next, offset + len n)
  ]
]

-- A fragment header, whose fragment must be the first.
abbrev pub fragment_end : List ℕ → ℕ → Option (ℕ × ℕ)
fragment_end packet offset = elim (get_elem? packet offset) [
  | none ↦ none
  | some next ↦ elim (get_elem? packet (offset + 2)) [
    | none ↦ none
    | some high ↦ elim (get_elem? packet (offset + 3)) [
      | none ↦ none
      | some low ↦
          (if not (bit_and (high * 256 + low) 0xfff8 == 0) then none else some (next, offset + 8))
    ]
  ]
]

-- Another header follows, unless the packet ends before.
abbrev pub behind : Option (ℕ × ℕ) → Option (Option (ℕ × ℕ))
behind none = none
behind (some next) = some (some next)

-- The header behind this one, or `some none` where this one is the upper layer's.
abbrev pub next_header : List ℕ → ℕ → ℕ → Option (Option (ℕ × ℕ))
next_header packet header offset =
    if header == 0 || (header == 43 || header == 60)
    then behind (extension_end packet offset (λ n. (n + 1) * 8))
    else if header == 44
    then behind (fragment_end packet offset)
    else if header == 51
    then behind (extension_end packet offset (λ n. (n + 2) * 4))
    else some none

-- The loop of at most 16 headers.
unfoldable pub upper_layer_from : ℕ → List ℕ → ℕ → ℕ → Option (ℕ × ℕ)
upper_layer_from zero packet header offset = none
upper_layer_from (suc rounds) packet header offset = elim (next_header packet header offset) [
  | none ↦ none
  | some none ↦ (if leb offset (length packet) then some (header, offset) else none)
  | some (some (next, last)) ↦ elim (ltb (length packet) last) [
    | true ↦ none
    | false ↦ upper_layer_from rounds packet next last
  ]
]

unfoldable pub ipv6_upper_layer : List ℕ → Option (ℕ × ℕ)
unfolding upper_layer_from
ipv6_upper_layer packet = elim (get_elem? packet 6) [
  | none ↦ none
  | some header ↦ upper_layer_from 16 packet header 40
]

abbrev pub is_icmp_error : Option ℕ → Bool
is_icmp_error none = false
is_icmp_error (some kind) = kind == 3 || (kind == 4 || (kind == 5 || (kind == 11 || kind == 12)))

-- Also where the message is cut off before its type.
abbrev pub is_icmpv6_error : Option ℕ → Bool
is_icmpv6_error none = true
is_icmpv6_error (some kind) = ltb kind 128

abbrev pub suppress_ipv6 : List ℕ → Option (ℕ × ℕ) → Bool
suppress_ipv6 packet none = true
suppress_ipv6 packet (some (protocol, offset)) =
    protocol == 58 && is_icmpv6_error (get_elem? packet offset)

abbrev pub suppress_for : IpAddr → List ℕ → MulticastPacket → Bool
suppress_for (v4 source) packet parsed =
    if parsed.ip_protocol == 1
    then (if parsed.fragmented
        then true
        else is_icmp_error (get_elem? packet (bit_and (byte_at packet 0) 0x0f * 4)))
    else false
suppress_for (v6 source) packet parsed = suppress_ipv6 packet (ipv6_upper_layer packet)

unfoldable pub suppress_icmp_error : List ℕ → MulticastPacket → Bool
unfolding ipv6_upper_layer
suppress_icmp_error packet parsed = suppress_for parsed.source packet parsed

-- `publish` says whether the raw socket's library takes the publication. The interval is one second,
-- for 4096 flows.
unfoldable pub new_sender :
    (IpAddr → Option ℕ → Bool) → IpAddr → Option ℕ → Result PmtuFeedbackError PmtuFeedbackSender
new_sender publish local_address interface_index =
    if is_unspecified local_address || is_multicast local_address
    then err (invalid_local_address local_address)
    else if not (publish local_address interface_index)
    then err transport
    else ok (record { local_address = local_address; limiter = new_limiter 1_000_000_000 4096 })

abbrev pub transported : Option ℕ → Result PmtuFeedbackError PmtuFeedbackOutcome
transported none = err transport
transported (some n) = ok (sent n)

abbrev pub Sent : Type 0
Sent = PmtuFeedbackSender × Result PmtuFeedbackError PmtuFeedbackOutcome

unfoldable pub send_limited :
    (List ℕ → Option ℕ) → PmtuFeedbackSender → ℕ → List ℕ → ℕ → MulticastPacket → Sent
unfolding allow build_pmtu_feedback
send_limited transmit s now invoking_packet tunnel_mtu parsed =
    let (limiter, allowed) =
      allow s.limiter now (record { source = parsed.source; group = parsed.group }) in
    let s' = record s { limiter = limiter } in
    if not allowed then (s', ok rate_limited) else (
      s',
      (build_pmtu_feedback s.local_address invoking_packet tunnel_mtu >>= λ feedback.
          transported (transmit feedback)),
    )

unfoldable pub send : (List ℕ → Option ℕ) → PmtuFeedbackSender → ℕ → List ℕ → ℕ → Sent
unfolding send_limited suppress_icmp_error
send transmit s now invoking_packet tunnel_mtu = elim (parse_multicast_packet invoking_packet) [
  | err e ↦ (s, err (invalid_packet e))
  | ok parsed ↦
      (if not (same_family s.local_address parsed.source)
        then (s, ok address_family_unavailable)
        else if suppress_icmp_error invoking_packet parsed
        then (s, ok suppressed)
        else send_limited transmit s now invoking_packet tunnel_mtu parsed)
]
