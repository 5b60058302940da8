-- ===== src/Protocol/Codec.antt =====
-- The encoder and the decoder of protocol.rs. Bytes are numbers below 256, and a datagram is their
-- list. `MessageType` and `Message` share constructor names, which stand behind their type here.
use amt.Prelude.{
  ℕ, ◌+◌, ◌-◌, ◌*◌, ◌/◌, Bool, true, false, not, Option, none, some, List, [], ◌∷◌, ◌++◌, Result,
  ok, err, ◌>>=◌, ◌>>◌, if◌then◌else◌, ltb, leb, ◌==◌, length, take, drop, replicate, bit_and,
  bit_or, bit_xor,
}
use amt.Prelude.Bytes.{byte_at, slice, to_be, from_be, bytes_eq}
use amt.Address.{IpAddr, v4, v6, octets}
use amt.Protocol.{
  MessageType, MembershipProtocol, igmpv3, mldv2, ResponseMac, GatewayAddress, GatewayEndpoint,
  Message, DecodeError, unsupported_version, unknown_message_type, truncated, invalid_length,
  gateway_fields_len,
}

-- The discriminants of `MessageType`.
unfoldable pub type_code : MessageType → ℕ
type_code MessageType.relay_discovery = 1
type_code MessageType.relay_advertisement = 2
type_code MessageType.request = 3
type_code MessageType.membership_query = 4
type_code MessageType.membership_update = 5
type_code MessageType.multicast_data = 6
type_code MessageType.teardown = 7

unfoldable pub from_nibble : ℕ → Result DecodeError MessageType
from_nibble value =
    if value == 1
    then ok MessageType.relay_discovery
    else if value == 2
    then ok MessageType.relay_advertisement
    else if value == 3
    then ok MessageType.request
    else if value == 4
    then ok MessageType.membership_query
    else if value == 5
    then ok MessageType.membership_update
    else if value == 6
    then ok MessageType.multicast_data
    else if value == 7
    then ok MessageType.teardown
    else err (unknown_message_type value)

unfoldable pub from_p_flag : Bool → MembershipProtocol
from_p_flag p = if p then mldv2 else igmpv3

unfoldable pub p_flag : MembershipProtocol → Bool
p_flag igmpv3 = false
p_flag mldv2 = true

-- `u8::from(b)`.
abbrev pub bit : Bool → ℕ
bit false = 0
bit true = 1

-- A zipped fold: `difference | (left ^ right)` over the pairs, from `difference`.
unfoldable pub mac_difference : ℕ → List ℕ → List ℕ → ℕ
mac_difference difference [] right = difference
mac_difference difference (l ∷ left) [] = difference
mac_difference difference (l ∷ left) (r ∷ right) =
    mac_difference (bit_or difference (bit_xor l r)) left right

unfoldable pub constant_time_eq : ResponseMac → ResponseMac → Bool
constant_time_eq left right = mac_difference 0 left right == 0

unfoldable pub from_ip_addr : IpAddr → GatewayAddress
from_ip_addr (v4 a) = 0 ∷ 0 ∷ 0 ∷ 0 ∷ 0 ∷ 0 ∷ 0 ∷ 0 ∷ 0 ∷ 0 ∷ 0 ∷ 0 ∷ octets (v4 a)
from_ip_addr (v6 a) = octets (v6 a)

unfoldable pub as_ipv6 : GatewayAddress → ℕ
as_ipv6 address = from_be address

-- Twelve zero bytes in front.
unfoldable pub as_ipv4_compatible : GatewayAddress → Option ℕ
as_ipv4_compatible address =
    if bytes_eq (take 12 address) (replicate 12 0) then some (from_be (drop 12 address)) else none

unfoldable pub header : MessageType → ℕ
unfolding type_code
header t = bit_or 0 (type_code t)

-- `put_u32`: what it appends.
unfoldable pub put_u32 : ℕ → List ℕ
put_u32 value = to_be 4 value

unfoldable pub put_gateway_endpoint : GatewayEndpoint → List ℕ
put_gateway_endpoint g = to_be 2 g.port ++ g.address

abbrev put_gateway : Option GatewayEndpoint → List ℕ
unfolding put_gateway_endpoint
put_gateway none = []
put_gateway (some g) = put_gateway_endpoint g

abbrev is_some {ℓ} : {A : Type ℓ} → Option A → Bool
is_some none = false
is_some (some a) = true

-- `encode`, with an empty vector to append to.
unfoldable pub encode : Message → List ℕ
unfolding header put_u32 put_gateway_endpoint p_flag
encode (Message.relay_discovery nonce) =
    header MessageType.relay_discovery ∷ 0 ∷ 0 ∷ 0 ∷ put_u32 nonce
encode (Message.relay_advertisement nonce address) =
    header MessageType.relay_advertisement ∷ 0 ∷ 0 ∷ 0 ∷ (put_u32 nonce ++ octets address)
encode (Message.request nonce protocol ecn) =
    header MessageType.request
    ∷ bit_or (bit ecn * 2) (bit (p_flag protocol))
    ∷ 0
    ∷ 0
    ∷ put_u32 nonce
encode (Message.membership_query mac nonce limit gateway query) =
    header MessageType.membership_query
    ∷ bit_or (bit limit * 2) (bit (is_some gateway))
    ∷ (mac ++ (put_u32 nonce ++ (query ++ put_gateway gateway)))
encode (Message.membership_update mac nonce update) =
    header MessageType.membership_update ∷ 0 ∷ (mac ++ (put_u32 nonce ++ update))
encode (Message.multicast_data packet) = header MessageType.multicast_data ∷ 0 ∷ packet
encode (Message.teardown mac nonce gateway) =
    header MessageType.teardown ∷ 0 ∷ (mac ++ (put_u32 nonce ++ put_gateway_endpoint gateway))

abbrev gateway_len : Option GatewayEndpoint → ℕ
gateway_len none = 0
gateway_len (some g) = gateway_fields_len

abbrev address_len : IpAddr → ℕ
address_len (v4 a) = 4
address_len (v6 a) = 16

unfoldable pub encoded_len : Message → ℕ
encoded_len (Message.relay_discovery nonce) = 8
encoded_len (Message.relay_advertisement nonce address) = 8 + address_len address
encoded_len (Message.request nonce protocol ecn) = 8
encoded_len (Message.membership_query mac nonce limit gateway query) =
    12 + length query + gateway_len gateway
encoded_len (Message.membership_update mac nonce update) = 12 + length update
encoded_len (Message.multicast_data packet) = 2 + length packet
encoded_len (Message.teardown mac nonce gateway) = 12 + gateway_fields_len

unfoldable pub require_exact : MessageType → List ℕ → ℕ → Result DecodeError (Unit {0})
require_exact t input expected =
    if length input == expected
    then ok tt
    else if ltb (length input) expected
    then err (truncated (some t) expected (length input))
    else err (invalid_length t "the fixed RFC 7450 message length" (length input))

unfoldable pub require_at_least : MessageType → List ℕ → ℕ → Result DecodeError (Unit {0})
require_at_least t input expected =
    if leb expected (length input) then ok tt else err (truncated (some t) expected (length input))

unfoldable pub read_u32 : List ℕ → ℕ → ℕ
read_u32 input offset = from_be (slice input offset (offset + 4))

unfoldable pub read_response_mac : List ℕ → ResponseMac
read_response_mac input = slice input 2 8

unfoldable pub read_gateway_endpoint : List ℕ → Result DecodeError GatewayEndpoint
read_gateway_endpoint input =
    if length input == gateway_fields_len
    then ok (record { port = from_be (slice input 0 2); address = slice input 2 18 })
    else err (invalid_length MessageType.teardown "18 gateway endpoint bytes" (length input))

unfoldable pub decode_relay_discovery : List ℕ → Result DecodeError Message
unfolding require_exact read_u32
decode_relay_discovery input = do
  require_exact MessageType.relay_discovery input 8
  ok (Message.relay_discovery (read_u32 input 4))

-- The address that fills the `size` bytes behind the nonce.
unfoldable pub relay_address : ℕ → List ℕ → Result DecodeError IpAddr
relay_address size input =
    if size == 4
    then ok (v4 (from_be (slice input 8 12)))
    else if size == 16
    then ok (v6 (from_be (slice input 8 24)))
    else err (
        invalid_length MessageType.relay_advertisement "12 bytes for IPv4 or 24 bytes for IPv6"
          (length input))

unfoldable pub decode_relay_advertisement : List ℕ → Result DecodeError Message
unfolding require_at_least read_u32 relay_address
decode_relay_advertisement input = do
  require_at_least MessageType.relay_advertisement input 8
  let nonce = read_u32 input 4
  address ← relay_address (length input - 8) input
  ok (Message.relay_advertisement nonce address)

-- `input[1] & mask != 0`.
abbrev pub flag : List ℕ → ℕ → Bool
flag input mask = not (bit_and (byte_at input 1) mask == 0)

unfoldable pub decode_request : List ℕ → Result DecodeError Message
unfolding require_exact read_u32 from_p_flag
decode_request input = do
  require_exact MessageType.request input 8
  ok (Message.request (read_u32 input 4) (from_p_flag (flag input 1)) (flag input 2))

-- The optional gateway fields: they end the message when the flag is set.
unfoldable pub read_query_gateway : Bool → List ℕ → ℕ → Result DecodeError (Option GatewayEndpoint)
unfolding read_gateway_endpoint
read_query_gateway false input offset = ok none
read_query_gateway true input offset = do g ← read_gateway_endpoint (drop offset input); ok (some g)

unfoldable pub query_gateway_offset : Bool → List ℕ → Result DecodeError ℕ
query_gateway_offset false input = ok (length input)
query_gateway_offset true input =
    if ltb (length input) (12 + gateway_fields_len)
    then err
        (truncated (some MessageType.membership_query) (12 + gateway_fields_len) (length input))
    else ok (length input - gateway_fields_len)

unfoldable pub decode_membership_query : List ℕ → Result DecodeError Message
unfolding require_at_least read_response_mac read_u32 read_query_gateway query_gateway_offset
decode_membership_query input = do
  require_at_least MessageType.membership_query input 12
  offset ← query_gateway_offset (flag input 1) input
  gateway ← read_query_gateway (flag input 1) input offset
  ok (
      Message.membership_query (read_response_mac input) (read_u32 input 8) (flag input 2) gateway
        (slice input 12 offset))

unfoldable pub decode_membership_update : List ℕ → Result DecodeError Message
unfolding require_at_least read_response_mac read_u32
decode_membership_update input = do
  require_at_least MessageType.membership_update input 12
  ok (Message.membership_update (read_response_mac input) (read_u32 input 8) (drop 12 input))

unfoldable pub decode_multicast_data : List ℕ → Result DecodeError Message
unfolding require_at_least
decode_multicast_data input = do
  require_at_least MessageType.multicast_data input 2
  ok (Message.multicast_data (drop 2 input))

unfoldable pub decode_teardown : List ℕ → Result DecodeError Message
unfolding require_exact read_response_mac read_u32 read_gateway_endpoint
decode_teardown input = do
  require_exact MessageType.teardown input (12 + gateway_fields_len)
  gateway ← read_gateway_endpoint (drop 12 input)
  ok (Message.teardown (read_response_mac input) (read_u32 input 8) gateway)

unfoldable pub decode_body : MessageType → List ℕ → Result DecodeError Message
unfolding decode_relay_discovery decode_relay_advertisement decode_request decode_membership_query
    decode_membership_update decode_multicast_data decode_teardown
decode_body MessageType.relay_discovery input = decode_relay_discovery input
decode_body MessageType.relay_advertisement input = decode_relay_advertisement input
decode_body MessageType.request input = decode_request input
decode_body MessageType.membership_query input = decode_membership_query input
decode_body MessageType.membership_update input = decode_membership_update input
decode_body MessageType.multicast_data input = decode_multicast_data input
decode_body MessageType.teardown input = decode_teardown input

unfoldable pub decode : List ℕ → Result DecodeError Message
unfolding decode_body from_nibble
decode [] = err (truncated none 1 0)
decode (first ∷ rest) =
    let version = bit_and first 0xf0 / 16 in
    if version == 0
    then (from_nibble (bit_and first 0x0f) >>= λ t. decode_body t (first ∷ rest))
    else err (unsupported_version version)
