-- ===== src/Ip/Tests.antt =====
-- A datagram that parses, and the options of a General Query.
use amt.Prelude.{ℕ, ◌≡◌, ◌/◌, ◌*◌, refl, arith, false, some, List, [], ◌∷◌, ok, take}
use amt.Prelude.Bytes.{byte_at}
use Prim.Native.Nat.{bit_and}
use amt.Address.{v4, is_multicast, is_unspecified, is_broadcast}
use amt.Checksum.{ones_complement_sum}
use amt.Ip.{
  MulticastPacket, parse_multicast_packet, alert_loop, ipv4_alert_step, ipv6_alert_step,
  has_ipv4_router_alert, has_ipv6_router_alert,
}
use amt.Ip.Laws.{IsForwardable, parse_multicast_packet-IsForwardable, router_alert_ends}

abbrev datagram : List ℕ
datagram =
    0x45 ∷ 3 ∷ 0 ∷ 20 ∷ 0 ∷ 0 ∷ 0 ∷ 0 ∷ 64 ∷ 17 ∷ 0xd0 ∷ 0xd3 ∷ 192 ∷ 0 ∷ 2 ∷ 1 ∷ 232 ∷ 0 ∷ 0 ∷ 1
    ∷ []

abbrev parsed : MulticastPacket
parsed = record {
  source = v4 0xc0000201;
  group = v4 0xe8000001;
  ip_protocol = 17;
  datagram_len = 20;
  fragmented = false;
}

parses : parse_multicast_packet datagram ≡ ok parsed
unfolding parse_multicast_packet is_multicast is_unspecified is_broadcast ones_complement_sum
parses = refl

parse_multicast_packet-IsForwardable_example :
    IsForwardable datagram parsed
    × ((byte_at datagram 0 / 16 ≡ 4)
        → ones_complement_sum (take (bit_and (byte_at datagram 0) 0x0f * 4) datagram) ≡ 0xffff)
parse_multicast_packet-IsForwardable_example =
    parse_multicast_packet-IsForwardable datagram parsed parses

-- Padding, and an option whose length is 0.
abbrev options : List ℕ
options = 1 ∷ 7 ∷ 0 ∷ 0x94 ∷ 4 ∷ 0 ∷ 0 ∷ []

router_alert_ends_example :
    (alert_loop (ipv4_alert_step options) 8 0 ≡ some (has_ipv4_router_alert options))
    × (alert_loop (ipv6_alert_step options) 8 0 ≡ some (has_ipv6_router_alert options))
router_alert_ends_example = router_alert_ends 8 options (omega arith)
