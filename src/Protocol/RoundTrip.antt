-- ===== src/Protocol/RoundTrip.antt =====
-- `decode` after `encode`, for each message type, and the length of what `encode` writes.
use amt.Prelude.{
  ℕ, suc, ◌+◌, ◌-◌, ◌/◌, ◌%◌, ◌^◌, ◌<◌, ◌≡◌, refl, arith, Bool, true, false, not, ◌==◌, bit_and,
  none, some, List, [], ◌∷◌, ◌++◌, ok, length, length-append, take-append, drop-append, take_all,
  take, drop,
}
use mathlib.Core.List.{append-nil}
use amt.Prelude.Bytes.{to_be, from_be-to_be}
use amt.Address.{IpAddr, v4, v6}
use amt.Protocol.{
  Message, IsMessage, IsEndpoint, GatewayEndpoint, ResponseMac, MembershipProtocol, igmpv3, mldv2,
  relay_discovery, relay_advertisement, request, membership_query, membership_update,
  multicast_data, teardown,
}
use amt.Protocol.Codec.{
  encode, decode, decode_membership_query, put_gateway_endpoint, read_gateway_endpoint, encoded_len,
}

pub request_round_trip :
    (nonce : ℕ) (protocol : MembershipProtocol) (ecn : Bool)
    → nonce < 2 ^ 32
    → decode (encode (request nonce protocol ecn)) ≡ ok (request nonce protocol ecn)
unfolding encode decode
request_round_trip nonce igmpv3 false h = ground (arith, from_be-to_be 4 nonce h)
request_round_trip nonce igmpv3 true h = ground (arith, from_be-to_be 4 nonce h)
request_round_trip nonce mldv2 false h = ground (arith, from_be-to_be 4 nonce h)
request_round_trip nonce mldv2 true h = ground (arith, from_be-to_be 4 nonce h)

pub advertisement_round_trip :
    (nonce : ℕ) (ip : IpAddr)
    → IsMessage (relay_advertisement nonce ip)
    → decode (encode (relay_advertisement nonce ip)) ≡ ok (relay_advertisement nonce ip)
unfolding encode decode
advertisement_round_trip nonce (v4 a) h =
    ground (arith, from_be-to_be 4 nonce h.0, from_be-to_be 4 a h.1)
advertisement_round_trip nonce (v6 a) h =
    ground (arith, from_be-to_be 4 nonce h.0, from_be-to_be 16 a h.1)

-- A MAC is six bytes, so that the fields behind it stand at fixed offsets.
six_bytes :
    (mac : ResponseMac) → length mac ≡ 6 → (a b c d e f : ℕ) × (mac ≡ a ∷ b ∷ c ∷ d ∷ e ∷ f ∷ [])
six_bytes (a ∷ b ∷ c ∷ d ∷ e ∷ f ∷ []) h = (a, b, c, d, e, f, refl)
six_bytes [] h = absurd (omega arith)
six_bytes _ h = absurd (omega arith)

pub update_round_trip :
    (mac : ResponseMac) (nonce : ℕ) (update : List ℕ)
    → length mac ≡ 6
    → nonce < 2 ^ 32
    → decode (encode (membership_update mac nonce update)) ≡ ok (membership_update mac nonce update)
unfolding encode decode
update_round_trip mac nonce update m h =
    let (a, b, c, d, e, f, eq) = six_bytes mac m in rw eq (ground (arith, from_be-to_be 4 nonce h))

endpoint_round_trip :
    (g : GatewayEndpoint) → IsEndpoint g → read_gateway_endpoint (put_gateway_endpoint g) ≡ ok g
unfolding read_gateway_endpoint put_gateway_endpoint
endpoint_round_trip g h =
    ground (arith, from_be-to_be 2 g.port h.port_fits, take_all 16 g.address h.address_length)

teardown_round_trip :
    (mac : ResponseMac) (nonce : ℕ) (g : GatewayEndpoint)
    → length mac ≡ 6
    → nonce < 2 ^ 32
    → IsEndpoint g
    → decode (encode (teardown mac nonce g)) ≡ ok (teardown mac nonce g)
unfolding encode decode
teardown_round_trip mac nonce g m h hg =
    let (a, b, c, d, e, f, eq) = six_bytes mac m in
    rw eq (
      ground (
        arith,
        from_be-to_be 4 nonce h,
        from_be-to_be 2 g.port hg.port_fits,
        take_all 16 g.address hg.address_length,
      ))

take_query : (n : ℕ) (q g : List ℕ) → n ≡ length q → take n (q ++ g) ≡ q
take_query n q g e = rw e (take-append q g)

-- Twelve bytes stand in front of the query.
drop_query :
    (x0 x1 x2 x3 x4 x5 x6 x7 x8 x9 xa xb n : ℕ) (q g : List ℕ)
    → n ≡ 12 + length q
    → drop n (x0 ∷ x1 ∷ x2 ∷ x3 ∷ x4 ∷ x5 ∷ x6 ∷ x7 ∷ x8 ∷ x9 ∷ xa ∷ xb ∷ (q ++ g)) ≡ g
drop_query x0 x1 x2 x3 x4 x5 x6 x7 x8 x9 xa xb n q g e =
    let e' : n ≡ suc (suc (suc (suc (suc (suc (suc (suc (suc (suc (suc (suc (length q)))))))))))) =
      omega arith in
    rw e' (drop-append q g)

pub plain_query_round_trip :
    (mac : ResponseMac) (nonce : ℕ) (limit : Bool) (query : List ℕ)
    → length mac ≡ 6
    → nonce < 2 ^ 32
    → decode (encode (membership_query mac nonce limit none query))
      ≡ ok (membership_query mac nonce limit none query)
unfolding encode decode
plain_query_round_trip mac nonce limit query m h =
    let (a, b, c, d, e, f, eq) = six_bytes mac m in
    rw (eq, append-nil)
      (ground
        (arith, from_be-to_be 4 nonce h, take_all (12 + length query - 12) query (omega arith)))

-- The decoder on a query whose flag byte announces gateway fields.
decode_gateway_query :
    (flags a b c d e f nonce : ℕ) (limit : Bool) (query : List ℕ) (g : GatewayEndpoint)
    → not (bit_and flags 1 == 0) ≡ true
    → not (bit_and flags 2 == 0) ≡ limit
    → nonce < 2 ^ 32
    → IsEndpoint g
    → decode_membership_query
        (4 ∷ flags ∷ a ∷ b ∷ c ∷ d ∷ e ∷ f ∷ (to_be 4 nonce ++ (query ++ put_gateway_endpoint g)))
      ≡ ok (membership_query (a ∷ b ∷ c ∷ d ∷ e ∷ f ∷ []) nonce limit (some g) query)
unfolding decode_membership_query put_gateway_endpoint
decode_gateway_query flags a b c d e f nonce limit query g has_gateway has_limit h hg =
    let gs = put_gateway_endpoint g in
    let n = 12 + length (query ++ gs) - 18 in
    let le : length (query ++ gs) ≡ length query + 18 =
      omega (arith, length-append query gs, hg.address_length) in
    ground (
      arith,
      from_be-to_be 4 nonce h,
      from_be-to_be 2 g.port hg.port_fits,
      take_all 16 g.address hg.address_length,
      take_query (n - 12) query gs (omega arith),
      drop_query 4 flags a b c d e f (nonce / 256 / 256 / 256 % 256) (nonce / 256 / 256 % 256)
          (nonce / 256 % 256) (nonce % 256) n query gs (omega arith),
    )

pub gateway_query_round_trip :
    (mac : ResponseMac) (nonce : ℕ) (limit : Bool) (g : GatewayEndpoint) (query : List ℕ)
    → length mac ≡ 6
    → nonce < 2 ^ 32
    → IsEndpoint g
    → decode (encode (membership_query mac nonce limit (some g) query))
      ≡ ok (membership_query mac nonce limit (some g) query)
unfolding encode decode
gateway_query_round_trip mac nonce false g query m h hg =
    let (a, b, c, d, e, f, eq) = six_bytes mac m in
    rw eq (decode_gateway_query 1 a b c d e f nonce false query g refl refl h hg)
gateway_query_round_trip mac nonce true g query m h hg =
    let (a, b, c, d, e, f, eq) = six_bytes mac m in
    rw eq (decode_gateway_query 3 a b c d e f nonce true query g refl refl h hg)

pub discovery_round_trip :
    (nonce : ℕ)
    → nonce < 2 ^ 32
    → decode (encode (relay_discovery nonce)) ≡ ok (relay_discovery nonce)
unfolding encode decode
discovery_round_trip nonce h = ground (arith, from_be-to_be 4 nonce h)

pub data_round_trip :
    (packet : List ℕ) → decode (encode (multicast_data packet)) ≡ ok (multicast_data packet)
unfolding encode decode
data_round_trip packet = ground arith

-- The encoder writes as many bytes as `encoded_len` announces, for every message whose fields fit
-- the Rust types.
pub length-encode : (m : Message) → IsMessage m → length (encode m) ≡ encoded_len m
unfolding encode encoded_len
length-encode (relay_discovery nonce) h = refl
length-encode (relay_advertisement nonce (v4 a)) h = refl
length-encode (relay_advertisement nonce (v6 a)) h = refl
length-encode (request nonce protocol ecn) h = refl
length-encode (membership_query mac nonce limit none query) ((m, mb), h, hg, q) =
    let (a, b, c, d, e, f, eq) = six_bytes mac m in rw (eq, append-nil) (omega arith)
length-encode (membership_query mac nonce limit (some g) query) ((m, mb), n, hg, q) =
    let (a, b, c, d, e, f, eq) = six_bytes mac m in
    rw eq (omega (arith, length-append query (put_gateway_endpoint g), hg.address_length))
length-encode (membership_update mac nonce update) ((m, mb), h, q) =
    let (a, b, c, d, e, f, eq) = six_bytes mac m in rw eq (omega arith)
length-encode (multicast_data packet) h = omega arith
length-encode (teardown mac nonce g) ((m, mb), n, hg) =
    let (a, b, c, d, e, f, eq) = six_bytes mac m in rw eq (omega (arith, hg.address_length))

-- Decoding what `encode` wrote gives the message back, for every message whose fields fit the Rust
-- types.
pub decode-encode : (m : Message) → IsMessage m → decode (encode m) ≡ ok m
decode-encode (relay_discovery nonce) h = discovery_round_trip nonce h
decode-encode (relay_advertisement nonce ip) h = advertisement_round_trip nonce ip h
decode-encode (request nonce protocol ecn) h = request_round_trip nonce protocol ecn h
decode-encode (membership_query mac nonce limit none query) ((m, mb), h, hg, q) =
    plain_query_round_trip mac nonce limit query m h
decode-encode (membership_query mac nonce limit (some g) query) ((m, mb), h, hg, q) =
    gateway_query_round_trip mac nonce limit g query m h hg
decode-encode (membership_update mac nonce update) ((m, mb), h, q) =
    update_round_trip mac nonce update m h
decode-encode (multicast_data packet) h = data_round_trip packet
decode-encode (teardown mac nonce g) ((m, mb), h, hg) = teardown_round_trip mac nonce g m h hg
