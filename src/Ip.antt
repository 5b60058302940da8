-- ===== src/Ip.antt =====
-- ip.rs: the check of a multicast datagram, and the router alert options. A loop over options has a
-- fuel of one round more than the options have bytes, and says when that has run out.
pub mod Laws
mod Tests
use Prim.Native.Nat.{bit_and}
use amt.Prelude.{
  ℕ, zero, suc, ◌+◌, ◌-◌, ◌*◌, ◌/◌, ◌%◌, ◌^◌, Bool, true, false, not, ◌&&◌, ◌||◌, Option, none,
  some, List, [], ◌∷◌, Result, ok, err, guard, ok_or, ◌>>=◌, ◌>>◌, length, get_elem?, take, drop,
  ltb, leb, ◌==◌, if◌then◌else◌,
}
use amt.Prelude.Bytes.{byte_at, slice, from_be, to_be, bytes_eq}
use amt.Address.{IpAddr, v4, v6, is_multicast, is_unspecified, is_broadcast}
use amt.Checksum.{ones_complement_sum}

pub record MulticastPacket : Type 0 where
  pub source : IpAddr
  pub group : IpAddr
  pub ip_protocol : ℕ
  pub datagram_len : ℕ
  pub fragmented : Bool

pub data IpPacketError : Type 0 where
  truncated : IpPacketError
  unsupported_version : ℕ → IpPacketError
  invalid_header : IpPacketError
  invalid_length : IpPacketError
  invalid_checksum : IpPacketError
  invalid_source : IpAddr → IpPacketError
  non_multicast_destination : IpAddr → IpPacketError

-- `segments()[0] & 0x000f` is the scope, the second nibble of the first two octets' low byte.
unfoldable pub is_amt_forwardable_group : IpAddr → Bool
is_amt_forwardable_group (v4 group) =
    is_multicast (v4 group) && not (bytes_eq (take 3 (to_be 4 group)) (224 ∷ 0 ∷ 0 ∷ []))
is_amt_forwardable_group (v6 group) =
    let scope = group / 2 ^ 112 % 16 in is_multicast (v6 group) && (leb 3 scope && ltb scope 15)

-- One round of a loop over options: its answer, or the offset that the next round starts from.
pub data AlertStep : Type 0 where
  answer : Bool → AlertStep
  next_offset : ℕ → AlertStep

abbrev pub ipv4_option : List ℕ → ℕ → Option ℕ → AlertStep
ipv4_option options offset none = answer false
ipv4_option options offset (some len) =
    if ltb len 2 || ltb (length options) (offset + len)
    then answer false
    else if byte_at options offset == 0x94
        && (len == 4 && bytes_eq (slice options (offset + 2) (offset + 4)) (0 ∷ 0 ∷ []))
    then answer true
    else next_offset (offset + len)

abbrev pub ipv4_alert_step : List ℕ → ℕ → AlertStep
ipv4_alert_step options offset =
    if leb (length options) offset
    then answer false
    else if byte_at options offset == 0
    then answer false
    else if byte_at options offset == 1
    then next_offset (offset + 1)
    else ipv4_option options offset (get_elem? options (offset + 1))

abbrev pub ipv6_option : List ℕ → ℕ → Option ℕ → AlertStep
ipv6_option options offset none = answer false
ipv6_option options offset (some len) =
    if ltb (length options) (offset + 2 + len)
    then answer false
    else if byte_at options offset == 5
        && (len == 2 && bytes_eq (slice options (offset + 2) (offset + 2 + len)) (0 ∷ 0 ∷ []))
    then answer true
    else next_offset (offset + 2 + len)

abbrev pub ipv6_alert_step : List ℕ → ℕ → AlertStep
ipv6_alert_step options offset =
    if leb (length options) offset
    then answer false
    else if byte_at options offset == 0
    then next_offset (offset + 1)
    else ipv6_option options offset (get_elem? options (offset + 1))

-- The loop over `offset`; `none` is a loop that has not ended within the rounds that it has.
unfoldable pub alert_loop : (ℕ → AlertStep) → ℕ → ℕ → Option Bool
alert_loop step zero offset = none
alert_loop step (suc rounds) offset = elim (step offset) [
  | answer found ↦ some found
  | next_offset offset' ↦ alert_loop step rounds offset'
]

abbrev pub answer_of : Option Bool → Bool
answer_of none = false
answer_of (some found) = found

unfoldable pub has_ipv4_router_alert : List ℕ → Bool
unfolding alert_loop
has_ipv4_router_alert options =
    answer_of (alert_loop (ipv4_alert_step options) (suc (length options)) 0)

unfoldable pub has_ipv6_router_alert : List ℕ → Bool
unfolding alert_loop
has_ipv6_router_alert options =
    answer_of (alert_loop (ipv6_alert_step options) (suc (length options)) 0)

abbrev pub is_invalid_source : IpAddr → Bool
is_invalid_source (v4 source) =
    is_unspecified (v4 source) || (is_multicast (v4 source) || is_broadcast (v4 source))
is_invalid_source (v6 source) = is_unspecified (v6 source) || is_multicast (v6 source)

unfoldable pub validate_addresses : IpAddr → IpAddr → Result IpPacketError (Unit {0})
validate_addresses source group =
    if is_invalid_source source
    then err (IpPacketError.invalid_source source)
    else if not (is_multicast group)
    then err (IpPacketError.non_multicast_destination group)
    else ok tt

unfoldable pub parse_ipv4 : List ℕ → Result IpPacketError MulticastPacket
unfolding validate_addresses
parse_ipv4 datagram = do
  guard (leb 20 (length datagram)) IpPacketError.truncated
  let ihl = bit_and (byte_at datagram 0) 0x0f * 4
  guard (not (ltb ihl 20 || ltb (length datagram) ihl)) IpPacketError.invalid_header
  let total_len = from_be (slice datagram 2 4)
  guard (not (ltb total_len ihl || not (total_len == length datagram))) IpPacketError.invalid_length
  guard (ones_complement_sum (take ihl datagram) == 0xffff) IpPacketError.invalid_checksum
  let source = v4 (from_be (slice datagram 12 16))
  let group = v4 (from_be (slice datagram 16 20))
  validate_addresses source group
  let fragment = from_be (slice datagram 6 8)
  ok (record {
    source = source;
    group = group;
    ip_protocol = byte_at datagram 9;
    datagram_len = total_len;
    fragmented = not (bit_and fragment 0x3fff == 0);
  })

unfoldable pub parse_ipv6 : List ℕ → Result IpPacketError MulticastPacket
unfolding validate_addresses
parse_ipv6 datagram = do
  guard (leb 40 (length datagram)) IpPacketError.truncated
  let total_len = 40 + from_be (slice datagram 4 6)
  guard (total_len == length datagram) IpPacketError.invalid_length
  let source = v6 (from_be (slice datagram 8 24))
  let group = v6 (from_be (slice datagram 24 40))
  validate_addresses source group
  ok (record {
    source = source;
    group = group;
    ip_protocol = byte_at datagram 6;
    datagram_len = total_len;
    fragmented = byte_at datagram 6 == 44;
  })

unfoldable pub parse_multicast_packet : List ℕ → Result IpPacketError MulticastPacket
unfolding parse_ipv4 parse_ipv6
parse_multicast_packet datagram = do
  first ← ok_or (get_elem? datagram 0) IpPacketError.truncated
  let version = first / 16
  if version == 4
      then parse_ipv4 datagram
      else if version == 6
      then parse_ipv6 datagram
      else err (IpPacketError.unsupported_version version)
