-- ===== src/Ip/Laws.antt =====
-- What a packet is that parses, and that the loops over options have fuel enough.
use Prim.Native.Nat.{bit_and}
use amt.Prelude.{
  ℕ, zero, suc, ◌+◌, ◌*◌, ◌/◌, ◌≤◌, ◌<◌, ◌≡◌, ◌⊎◌, Bool, Option, none, some, get_elem?, refl, arith,
  true, false, List, [], ◌∷◌, ok, length, take, ◌==◌, Bool-cases, inl, inr, Result-cases,
}
use amt.Prelude.Bytes.{byte_at, slice, from_be}
use amt.Address.{IpAddr, v4, v6, is_multicast, same_family}
use amt.Checksum.{ones_complement_sum}
use amt.Ip.{
  MulticastPacket, is_invalid_source, validate_addresses, parse_ipv4, parse_ipv6,
  parse_multicast_packet, AlertStep, answer, next_offset, ipv4_option, ipv4_alert_step, ipv6_option,
  ipv6_alert_step, alert_loop, has_ipv4_router_alert, has_ipv6_router_alert,
}

-- What holds of a packet that is forwarded: a multicast group, a source that can be one, of the
-- group's family, and a length that is all of the datagram's.
pub record IsForwardable (datagram : List ℕ) (p : MulticastPacket) : Type 0 where
  pub group_multicast : is_multicast p.group ≡ true
  pub source_valid : is_invalid_source p.source ≡ false
  pub families : same_family p.source p.group ≡ true
  pub whole : p.datagram_len ≡ length datagram

validate_addresses-ok :
    (source group : IpAddr)
    → validate_addresses source group ≡ ok tt
    → (is_multicast group ≡ true) × (is_invalid_source source ≡ false)
unfolding validate_addresses
validate_addresses-ok source group h = ground arith

parse_ipv4-IsForwardable :
    (datagram : List ℕ) (p : MulticastPacket)
    → parse_ipv4 datagram ≡ ok p
    → IsForwardable datagram p
      × (ones_complement_sum (take (bit_and (byte_at datagram 0) 0x0f * 4) datagram) ≡ 0xffff)
unfolding parse_ipv4
parse_ipv4-IsForwardable datagram p h =
    let source = v4 (from_be (slice datagram 12 16)) in
    let group = v4 (from_be (slice datagram 16 20)) in
    elim (Result-cases (validate_addresses source group)) [
      | inl (_, c) ↦
          (let (multicast, valid) = validate_addresses-ok source group c in
            (
              record {
                group_multicast = ground (arith, multicast);
                source_valid = ground (arith, valid);
                families = ground arith;
                whole = ground arith;
              },
              ground arith,
            ))
      | inr (e, c) ↦ absurd (ground arith)
    ]

parse_ipv6-IsForwardable :
    (datagram : List ℕ) (p : MulticastPacket)
    → parse_ipv6 datagram ≡ ok p
    → IsForwardable datagram p
unfolding parse_ipv6
parse_ipv6-IsForwardable datagram p h =
    let source = v6 (from_be (slice datagram 8 24)) in
    let group = v6 (from_be (slice datagram 24 40)) in
    elim (Result-cases (validate_addresses source group)) [
      | inl (_, c) ↦
          (let (multicast, valid) = validate_addresses-ok source group c in
            record {
              group_multicast = ground (arith, multicast);
              source_valid = ground (arith, valid);
              families = ground arith;
              whole = ground arith;
            })
      | inr (e, c) ↦ absurd (ground arith)
    ]

AlertStep-cases :
    (s : AlertStep) → ((found : Bool) × (s ≡ answer found)) ⊎ ((next : ℕ) × (s ≡ next_offset next))
AlertStep-cases (answer found) = inl (found, refl)
AlertStep-cases (next_offset next) = inr (next, refl)

-- Every round that goes on has moved the offset on, and not past the end of the options.
abbrev Advances : ℕ → (ℕ → AlertStep) → Type 0
Advances len step =
    (offset next : ℕ) → step offset ≡ next_offset next → (offset < next) × (next ≤ len)

ipv4_option-Advances :
    (options : List ℕ) (offset next : ℕ) (len : Option ℕ)
    → ipv4_option options offset len ≡ next_offset next
    → (offset < next) × (next ≤ length options)
ipv4_option-Advances options offset next none e = absurd cc
ipv4_option-Advances options offset next (some len) e = ground arith

ipv4_alert_step-Advances : (options : List ℕ) → Advances (length options) (ipv4_alert_step options)
ipv4_alert_step-Advances options offset next e =
    ground (arith, ipv4_option-Advances options offset next (get_elem? options (offset + 1)))

ipv6_option-Advances :
    (options : List ℕ) (offset next : ℕ) (len : Option ℕ)
    → ipv6_option options offset len ≡ next_offset next
    → (offset < next) × (next ≤ length options)
ipv6_option-Advances options offset next none e = absurd cc
ipv6_option-Advances options offset next (some len) e = ground arith

ipv6_alert_step-Advances : (options : List ℕ) → Advances (length options) (ipv6_alert_step options)
ipv6_alert_step-Advances options offset next e =
    ground (arith, ipv6_option-Advances options offset next (get_elem? options (offset + 1)))

-- A loop whose rounds advance ends within one round more than there are bytes left, and with more
-- rounds it finds the same.
alert_loop-ends :
    (len : ℕ) (step : ℕ → AlertStep)
    → Advances len step
    → (n m offset : ℕ) → offset ≤ len
    → len < n + offset
    → len < m + offset
    → (found : Bool) × (alert_loop step n offset ≡ some found)
      × (alert_loop step m offset ≡ some found)
unfolding alert_loop
alert_loop-ends len step advances zero m offset within hn hm = absurd (omega (arith, within, hn))
alert_loop-ends len step advances (suc n) zero offset within hn hm =
    absurd (omega (arith, within, hm))
alert_loop-ends len step advances (suc n) (suc m) offset within hn hm =
    elim (AlertStep-cases (step offset)) [
      | inl (found, e) ↦ (found, rw (e, alert_loop) refl, rw (e, alert_loop) refl)
      | inr (next, e) ↦
          (let (forward, inside) = advances offset next e in
            rw (e, alert_loop)
              (alert_loop-ends len step advances n m next inside (omega (arith, hn, forward))
                (omega (arith, hm, forward))))
    ]

-- The loops over the options of a header always end: given more rounds than the options have bytes,
-- they come to an answer, and it is that of `has_ipv4_router_alert` and `has_ipv6_router_alert`.
pub router_alert_ends :
    (n : ℕ) (options : List ℕ)
    → length options < n
    → (alert_loop (ipv4_alert_step options) n 0 ≡ some (has_ipv4_router_alert options))
      × (alert_loop (ipv6_alert_step options) n 0 ≡ some (has_ipv6_router_alert options))
unfolding has_ipv4_router_alert has_ipv6_router_alert
router_alert_ends n options h =
    let len = length options in
    let (found4, all4, enough4) =
      alert_loop-ends len (ipv4_alert_step options) (ipv4_alert_step-Advances options) n (suc len) 0
        (omega arith) (omega (arith, h)) (omega arith) in
    let (found6, all6, enough6) =
      alert_loop-ends len (ipv6_alert_step options) (ipv6_alert_step-Advances options) n (suc len) 0
        (omega arith) (omega (arith, h)) (omega arith) in
    (rw (all4, enough4) refl, rw (all6, enough6) refl)

-- A datagram that parses is forwardable: its group is multicast, its source can be a source and is
-- of the group's family, its announced length is its own, and an IPv4 header verifies.
pub parse_multicast_packet-IsForwardable :
    (datagram : List ℕ) (p : MulticastPacket)
    → parse_multicast_packet datagram ≡ ok p
    → IsForwardable datagram p
      × ((byte_at datagram 0 / 16 ≡ 4)
          → ones_complement_sum (take (bit_and (byte_at datagram 0) 0x0f * 4) datagram) ≡ 0xffff)
unfolding parse_multicast_packet
parse_multicast_packet-IsForwardable [] p h = cc
parse_multicast_packet-IsForwardable (first ∷ rest) p h = elim (Bool-cases (first / 16 == 4)) [
  | inl e ↦
      (let (f, s) = parse_ipv4-IsForwardable (first ∷ rest) p (ground arith) in (f, λ four. s))
  | inr ne ↦ elim (Bool-cases (first / 16 == 6)) [
    | inl e ↦
        (parse_ipv6-IsForwardable (first ∷ rest) p (ground arith), λ four. absurd (ground arith))
    | inr e ↦ absurd (ground arith)
  ]
]
