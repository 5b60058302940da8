-- ===== src/Query.antt =====
-- query.rs: General Queries of IGMPv3 and MLDv2, built and validated, and the interval code.
-- A `Duration` stands for its whole seconds.
pub mod Interval
pub mod Laws
mod Tests
use Prim.Native.Nat.{bit_and, bit_or}
use amt.Prelude.{
  ℕ, zero, suc, ◌+◌, ◌-◌, ◌*◌, ◌/◌, ◌%◌, ◌^◌, Bool, true, false, not, ◌&&◌, ◌||◌, Option, none,
  some, List, [], ◌∷◌, ◌++◌, Result, ok, err, guard, ok_or, ◌>>=◌, ◌>>◌, length, get_elem?, take,
  drop, replicate, ltb, leb, ◌==◌, if◌then◌else◌,
}
use amt.Prelude.Bytes.{byte_at, slice, from_be, to_be, bytes_eq}
use amt.Address.{v4, v6, is_multicast, is_broadcast}
use amt.Checksum.{checksum, ones_complement_sum, icmpv6_checksum}
use amt.Ip.{has_ipv4_router_alert, has_ipv6_router_alert}
use amt.Protocol.{MembershipProtocol, igmpv3, mldv2}

pub record GeneralQueryConfig : Type 0 where
  pub igmp_source : ℕ
  pub mld_source : ℕ
  pub igmp_max_response_code : ℕ
  pub mld_max_response_code : ℕ
  pub robustness_variable : ℕ
  pub query_interval_code : ℕ

pub data QueryValidationError : Type 0 where
  truncated wrong_address_family invalid_length invalid_header : QueryValidationError
  invalid_checksum invalid_source not_general_query : QueryValidationError

abbrev pub for_amt : GeneralQueryConfig
for_amt = record {
  igmp_source = 0;
  mld_source = 0;
  igmp_max_response_code = 1;
  mld_max_response_code = 1;
  robustness_variable = 2;
  query_interval_code = 125;
}

abbrev pub for_local_network : GeneralQueryConfig
for_local_network = record for_amt { igmp_max_response_code = 100; mld_max_response_code = 10000 }

-- 224.0.0.1 and ff02::1.
abbrev pub all_systems_v4 : List ℕ
all_systems_v4 = 224 ∷ 0 ∷ 0 ∷ 1 ∷ []

abbrev pub all_nodes_v6 : List ℕ
all_nodes_v6 = 0xff ∷ 2 ∷ 0 ∷ 0 ∷ 0 ∷ 0 ∷ 0 ∷ 0 ∷ 0 ∷ 0 ∷ 0 ∷ 0 ∷ 0 ∷ 0 ∷ 0 ∷ 1 ∷ []

unfoldable pub query_interval : ℕ → ℕ
query_interval code =
    if ltb code 128
    then code
    else (let mantissa = bit_or (bit_and code 0x0f) 0x10 in
        let exponent = bit_and (code / 16) 7 + 3 in mantissa * 2 ^ exponent)

-- The two loops, as one over `exponent << 4 | mantissa`, which counts through 0 to 127: `left` of
-- these numbers are still to try.
unfoldable pub encode_from : ℕ → ℕ → ℕ
unfolding query_interval
encode_from zero seconds = 255
encode_from (suc left) seconds =
    let rest = encode_from left seconds in
    let code = 255 - left in if leb seconds (query_interval code) then code else rest

unfoldable pub encode_query_interval : ℕ → ℕ
unfolding encode_from
encode_query_interval seconds = if ltb seconds 128 then seconds else encode_from 128 seconds

-- The interval code and the length of the datagram.
unfoldable pub validate_igmpv3_general_query : List ℕ → Result QueryValidationError (ℕ × ℕ)
validate_igmpv3_general_query packet = do
  first ← ok_or (get_elem? packet 0) truncated
  guard (first / 16 == 4) wrong_address_family
  guard (leb 36 (length packet)) truncated
  let ihl = bit_and (byte_at packet 0) 0x0f * 4
  guard (not (ltb ihl 24 || ltb (length packet) ihl)) invalid_header
  let total_len = from_be (slice packet 2 4)
  guard (not (ltb (length packet) total_len || not (total_len == ihl + 12))) invalid_length
  guard
      (byte_at packet 8 == 1
        && (byte_at packet 9 == 2
            && (bit_and (from_be (slice packet 6 8)) 0x3fff == 0
                && (bytes_eq (slice packet 16 20) all_systems_v4
                    && has_ipv4_router_alert (slice packet 20 ihl)))))
      invalid_header
  let source = v4 (from_be (slice packet 12 16))
  guard (not (is_multicast source || is_broadcast source)) invalid_source
  guard (ones_complement_sum (take ihl packet) == 0xffff) invalid_checksum
  let igmp = slice packet ihl total_len
  guard
      (byte_at igmp 0 == 0x11
        && (bytes_eq (slice igmp 4 8) (replicate 4 0) && from_be (slice igmp 10 12) == 0))
      not_general_query
  guard (ones_complement_sum igmp == 0xffff) invalid_checksum
  ok (byte_at igmp 9, total_len)

unfoldable pub validate_mldv2_general_query : List ℕ → Result QueryValidationError (ℕ × ℕ)
validate_mldv2_general_query packet = do
  first ← ok_or (get_elem? packet 0) truncated
  guard (first / 16 == 6) wrong_address_family
  guard (leb 76 (length packet)) truncated
  let payload_len = from_be (slice packet 4 6)
  let total_len = 40 + payload_len
  guard (not (ltb (length packet) total_len || not (payload_len == 36))) invalid_length
  guard
      (byte_at packet 6 == 0
        && (byte_at packet 7 == 1
            && (bytes_eq (slice packet 24 40) all_nodes_v6
                && (byte_at packet 40 == 58 && has_ipv6_router_alert (slice packet 42 48)))))
      invalid_header
  let source = from_be (slice packet 8 24)
  guard (not (is_multicast (v6 source))) invalid_source
  let mld = slice packet 48 total_len
  guard
      (byte_at mld 0 == 130
        && (byte_at mld 1 == 0
            && (bytes_eq (slice mld 8 24) (replicate 16 0) && from_be (slice mld 26 28) == 0)))
      not_general_query
  guard (icmpv6_checksum (to_be 16 source) all_nodes_v6 58 mld == 0) invalid_checksum
  ok (byte_at mld 25, total_len)

abbrev pub validate_query : MembershipProtocol → List ℕ → Result QueryValidationError (ℕ × ℕ)
unfolding validate_igmpv3_general_query validate_mldv2_general_query
validate_query igmpv3 packet = validate_igmpv3_general_query packet
validate_query mldv2 packet = validate_mldv2_general_query packet

-- The interval and the datagram without what trails it.
unfoldable pub validated_general_query :
    MembershipProtocol → List ℕ → Result QueryValidationError (ℕ × List ℕ)
unfolding validate_query query_interval
validated_general_query protocol packet =
    validate_query protocol packet >>= λ r. ok (query_interval r.0, take r.1 packet)

-- The IGMP message around its checksum.
abbrev pub igmp_message : GeneralQueryConfig → List ℕ → List ℕ
igmp_message config sum =
    0x11 ∷ config.igmp_max_response_code ∷ []
    ++ (sum
        ++ (0
            ∷ 0
            ∷ 0
            ∷ 0
            ∷ bit_and config.robustness_variable 7
            ∷ config.query_interval_code
            ∷ 0
            ∷ 0
            ∷ []))

-- The IPv4 header around its checksum.
abbrev pub igmp_header : GeneralQueryConfig → List ℕ → List ℕ
igmp_header config sum =
    0x46 ∷ 0xc0 ∷ 0 ∷ 36 ∷ 0 ∷ 0 ∷ 0 ∷ 0 ∷ 1 ∷ 2 ∷ []
    ++ (sum ++ (to_be 4 config.igmp_source ++ (all_systems_v4 ++ (0x94 ∷ 4 ∷ 0 ∷ 0 ∷ []))))

unfoldable pub build_igmpv3_general_query : GeneralQueryConfig → List ℕ
build_igmpv3_general_query config =
    let igmp_checksum = checksum (igmp_message config (0 ∷ 0 ∷ [])) in
    let header_checksum = checksum (igmp_header config (0 ∷ 0 ∷ [])) in
    igmp_header config (to_be 2 header_checksum) ++ igmp_message config (to_be 2 igmp_checksum)

abbrev pub mld_message : GeneralQueryConfig → List ℕ → List ℕ
mld_message config sum =
    130 ∷ 0 ∷ []
    ++ (sum
        ++ (to_be 2 config.mld_max_response_code
            ++ (0
                ∷ 0
                ∷ (replicate 16 0
                    ++ (bit_and config.robustness_variable 7
                        ∷ config.query_interval_code
                        ∷ 0
                        ∷ 0
                        ∷ [])))))

unfoldable pub build_mldv2_general_query : GeneralQueryConfig → List ℕ
build_mldv2_general_query config =
    let source = to_be 16 config.mld_source in
    let mld_checksum = icmpv6_checksum source all_nodes_v6 58 (mld_message config (0 ∷ 0 ∷ [])) in
    0x60 ∷ 0 ∷ 0 ∷ 0 ∷ 0 ∷ 36 ∷ 0 ∷ 1 ∷ []
    ++ (source
        ++ (all_nodes_v6
            ++ (58 ∷ 0 ∷ 5 ∷ 2 ∷ 0 ∷ 0 ∷ 1 ∷ 0 ∷ [] ++ mld_message config (to_be 2 mld_checksum))))

abbrev pub build_general_query : MembershipProtocol → GeneralQueryConfig → List ℕ
unfolding build_igmpv3_general_query build_mldv2_general_query
build_general_query igmpv3 config = build_igmpv3_general_query config
build_general_query mldv2 config = build_mldv2_general_query config
