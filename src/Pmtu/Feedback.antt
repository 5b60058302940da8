-- ===== src/Pmtu/Feedback.antt =====
-- The packets that pmtu.rs builds: ICMP "fragmentation needed" and ICMPv6 "packet too big", each
-- quoting the front of the packet that was too large.
use Prim.Native.Nat.{min}
use amt.Prelude.{
  ℕ, ◌+◌, ◌%◌, ◌^◌, List, [], ◌∷◌, ◌++◌, Result, ok, err, ◌>>=◌, map_err, if◌then◌else◌, length,
  take, ltb,
}
use amt.Prelude.Bytes.{to_be}
use amt.Address.{IpAddr, v4, v6}
use amt.Checksum.{checksum, icmpv6_checksum}
use amt.Ip.{parse_multicast_packet}
use amt.Pmtu.{PmtuFeedbackError, invalid_packet, invalid_local_address, invalid_mtu}

-- The IPv4 header and the ICMP message, each around its checksum.
abbrev pub icmpv4_header : ℕ → ℕ → ℕ → List ℕ → List ℕ
icmpv4_header total_len local destination sum =
    0x45 ∷ 0 ∷ (to_be 2 (total_len % 2 ^ 16) ++ (0 ∷ 0 ∷ 0 ∷ 0 ∷ 64 ∷ 1 ∷ []))
    ++ (sum ++ (to_be 4 local ++ to_be 4 destination))

abbrev pub icmpv4_message : ℕ → List ℕ → List ℕ → List ℕ
icmpv4_message mtu quote sum = 3 ∷ 4 ∷ [] ++ (sum ++ (0 ∷ 0 ∷ (to_be 2 mtu ++ quote)))

-- 548 bytes are the reassembly minimum of 576 without the two headers.
unfoldable pub build_icmpv4_fragmentation_needed :
    ℕ → ℕ → List ℕ → ℕ → Result PmtuFeedbackError (List ℕ)
build_icmpv4_fragmentation_needed local destination invoking_packet tunnel_mtu =
    let quote_len = min (length invoking_packet) 548 in
    let quote = take quote_len invoking_packet in
    let total_len = 20 + 8 + quote_len in
    let icmp_checksum = checksum (icmpv4_message tunnel_mtu quote (0 ∷ 0 ∷ [])) in
    let header_checksum = checksum (icmpv4_header total_len local destination (0 ∷ 0 ∷ [])) in
    if ltb 0xffff tunnel_mtu
    then err (invalid_mtu tunnel_mtu)
    else ok (
        icmpv4_header total_len local destination (to_be 2 header_checksum)
        ++ icmpv4_message tunnel_mtu quote (to_be 2 icmp_checksum))

abbrev pub icmpv6_header : ℕ → ℕ → ℕ → List ℕ
icmpv6_header payload_len local destination =
    0x60 ∷ 0 ∷ 0 ∷ 0 ∷ (to_be 2 (payload_len % 2 ^ 16) ++ (58 ∷ 64 ∷ []))
    ++ (to_be 16 local ++ to_be 16 destination)

abbrev pub icmpv6_message : ℕ → List ℕ → List ℕ → List ℕ
icmpv6_message mtu quote sum = 2 ∷ 0 ∷ [] ++ (sum ++ (to_be 4 mtu ++ quote))

-- 1232 bytes are the minimum MTU of 1280 without the two headers.
unfoldable pub build_icmpv6_packet_too_big : ℕ → ℕ → List ℕ → ℕ → Result PmtuFeedbackError (List ℕ)
build_icmpv6_packet_too_big local destination invoking_packet tunnel_mtu =
    let quote_len = min (length invoking_packet) 1232 in
    let quote = take quote_len invoking_packet in
    let icmp_checksum =
      icmpv6_checksum (to_be 16 local) (to_be 16 destination) 58
        (icmpv6_message tunnel_mtu quote (0 ∷ 0 ∷ [])) in
    if ltb 0xffff_ffff tunnel_mtu
    then err (invalid_mtu tunnel_mtu)
    else ok (
        icmpv6_header (8 + quote_len) local destination
        ++ icmpv6_message tunnel_mtu quote (to_be 2 icmp_checksum))

abbrev pub build_for : IpAddr → IpAddr → List ℕ → ℕ → Result PmtuFeedbackError (List ℕ)
build_for (v4 local) (v4 source) packet mtu =
    build_icmpv4_fragmentation_needed local source packet mtu
build_for (v6 local) (v6 source) packet mtu = build_icmpv6_packet_too_big local source packet mtu
build_for local source packet mtu = err (invalid_local_address local)

unfoldable pub build_pmtu_feedback : IpAddr → List ℕ → ℕ → Result PmtuFeedbackError (List ℕ)
build_pmtu_feedback local_address invoking_packet tunnel_mtu =
    map_err invalid_packet (parse_multicast_packet invoking_packet) >>= λ parsed.
    build_for local_address parsed.source invoking_packet tunnel_mtu
