-- ===== src/Query/Laws.antt =====
-- The queries that are built validate.
use Prim.Native.Nat.{bit_and}
use amt.Prelude.{
  ℕ, ◌-◌, ◌^◌, ◌<◌, ◌≡◌, refl, ap, ◌∙◌, arith, true, false, ◌||◌, List, [], ◌∷◌, ◌++◌, ok,
  replicate, ltb, ltb→lt,
}
use amt.Prelude.Bits.{all_below, all_below_sound}
use amt.Prelude.Bytes.{IsByte, to_be, from_be-to_be}
use amt.Address.{v4, v6, is_multicast, is_broadcast}
use amt.Checksum.{checksum, ones_complement_sum, icmpv6_checksum}
use amt.Ip.{has_ipv6_router_alert, has_ipv4_router_alert}
use amt.Checksum.Laws.{checksum_verifies, checksum_parts-concat, checksum-complement}
use amt.Protocol.{MembershipProtocol, igmpv3, mldv2}
use amt.Query.{
  GeneralQueryConfig, query_interval, build_general_query, build_igmpv3_general_query,
  build_mldv2_general_query, validated_general_query, all_systems_v4, all_nodes_v6, mld_message,
  validate_mldv2_general_query, validate_igmpv3_general_query, igmp_message, igmp_header,
}

-- The fields of the Rust type, and sources that are neither multicast nor broadcast.
pub record IsConfig (config : GeneralQueryConfig) : Type 0 where
  pub igmp_source_fits : config.igmp_source < 2 ^ 32
  pub igmp_unicast :
      (is_multicast (v4 config.igmp_source) || is_broadcast (v4 config.igmp_source)) ≡ false
  pub mld_source_fits : config.mld_source < 2 ^ 128
  pub mld_unicast : is_multicast (v6 config.mld_source) ≡ false
  pub igmp_max_response_code_fits : config.igmp_max_response_code < 256
  pub mld_max_response_code_fits : config.mld_max_response_code < 2 ^ 16
  pub robustness_variable_fits : config.robustness_variable < 256
  pub query_interval_code_fits : config.query_interval_code < 256

masked_table : all_below 256 (λ b. ltb (bit_and b 7) 256) ≡ true
unfolding all_below
masked_table = refl

masked-IsByte : (b : ℕ) → b < 256 → IsByte (bit_and b 7)
masked-IsByte b h = ltb→lt _ 256 (all_below_sound 256 _ b h masked_table)

igmp_message-sum :
    (config : GeneralQueryConfig)
    → IsConfig config
    → ones_complement_sum
        (igmp_message config (to_be 2 (checksum (igmp_message config (0 ∷ 0 ∷ [])))))
      ≡ 0xffff
igmp_message-sum config c =
    checksum_verifies (0x11 ∷ config.igmp_max_response_code ∷ [])
      (0
        ∷ 0
        ∷ 0
        ∷ 0
        ∷ bit_and config.robustness_variable 7
        ∷ config.query_interval_code
        ∷ 0
        ∷ 0
        ∷ [])
      tt (ground (arith, c.igmp_max_response_code_fits))
      (ground (
        arith,
        masked-IsByte config.robustness_variable c.robustness_variable_fits,
        c.query_interval_code_fits,
      ))

igmp_header-sum :
    (config : GeneralQueryConfig)
    → ones_complement_sum
        (igmp_header config (to_be 2 (checksum (igmp_header config (0 ∷ 0 ∷ [])))))
      ≡ 0xffff
igmp_header-sum config =
    checksum_verifies (0x46 ∷ 0xc0 ∷ 0 ∷ 36 ∷ 0 ∷ 0 ∷ 0 ∷ 0 ∷ 1 ∷ 2 ∷ [])
      (to_be 4 config.igmp_source ++ (all_systems_v4 ++ (0x94 ∷ 4 ∷ 0 ∷ 0 ∷ []))) tt (ground arith)
      (ground arith)

build_igmpv3-validates :
    (config : GeneralQueryConfig)
    → IsConfig config
    → validated_general_query igmpv3 (build_general_query igmpv3 config)
      ≡ ok (query_interval config.query_interval_code, build_general_query igmpv3 config)
unfolding build_igmpv3_general_query build_mldv2_general_query validated_general_query
    validate_igmpv3_general_query validate_mldv2_general_query has_ipv4_router_alert
build_igmpv3-validates config c = ground (
  arith,
  igmp_message-sum config c,
  igmp_header-sum config,
  from_be-to_be 4 config.igmp_source c.igmp_source_fits,
  c.igmp_unicast,
)

-- The pseudo-header and the first bytes of the MLD message.
abbrev mld_front : GeneralQueryConfig → List ℕ
mld_front config =
    to_be 16 config.mld_source ++ (all_nodes_v6 ++ (0 ∷ 0 ∷ 0 ∷ 28 ∷ 0 ∷ 0 ∷ 0 ∷ 58 ∷ 130 ∷ 0 ∷ []))

abbrev mld_back : GeneralQueryConfig → List ℕ
mld_back config =
    to_be 2 config.mld_max_response_code
    ++ (0
        ∷ 0
        ∷ (replicate 16 0
            ++ (bit_and config.robustness_variable 7 ∷ config.query_interval_code ∷ 0 ∷ 0 ∷ [])))

icmpv6_checksum-mld_message :
    (config : GeneralQueryConfig) (a b : ℕ)
    → icmpv6_checksum (to_be 16 config.mld_source) all_nodes_v6 58 (mld_message config (a ∷ b ∷ []))
      ≡ checksum (mld_front config ++ (a ∷ b ∷ mld_back config))
unfolding icmpv6_checksum
icmpv6_checksum-mld_message config a b = checksum_parts-concat (
    to_be 16 config.mld_source
    ∷ all_nodes_v6
    ∷ (0 ∷ 0 ∷ 0 ∷ 28 ∷ [])
    ∷ (0 ∷ 0 ∷ 0 ∷ 58 ∷ [])
    ∷ mld_message config (a ∷ b ∷ [])
    ∷ [])

mld_message-sum :
    (config : GeneralQueryConfig)
    → IsConfig config
    → icmpv6_checksum (to_be 16 config.mld_source) all_nodes_v6 58 (
        mld_message config (
          to_be 2 (
            icmpv6_checksum
              (to_be 16 config.mld_source)
              all_nodes_v6
              58
              (mld_message config (0 ∷ 0 ∷ [])))))
      ≡ 0
mld_message-sum config c =
    icmpv6_checksum-mld_message config _ _
    ∙ checksum-complement _
    ∙ ap (λ (n : ℕ). 0xffff - n)
        (ap (λ (n : ℕ). ones_complement_sum (mld_front config ++ (to_be 2 n ++ mld_back config)))
            (icmpv6_checksum-mld_message config 0 0)
          ∙ checksum_verifies (mld_front config) (mld_back config) tt (ground arith) (
              ground (
                arith,
                masked-IsByte config.robustness_variable c.robustness_variable_fits,
                c.query_interval_code_fits,
              )))

build_mldv2-validates :
    (config : GeneralQueryConfig)
    → IsConfig config
    → validated_general_query mldv2 (build_general_query mldv2 config)
      ≡ ok (query_interval config.query_interval_code, build_general_query mldv2 config)
unfolding build_igmpv3_general_query build_mldv2_general_query validated_general_query
    validate_igmpv3_general_query validate_mldv2_general_query has_ipv6_router_alert
build_mldv2-validates config c = ground (
  arith,
  mld_message-sum config c,
  from_be-to_be 16 config.mld_source c.mld_source_fits,
  c.mld_unicast,
)

-- A General Query that is built from a configuration validates for its protocol, with nothing
-- trailing, and its interval is the one of the configuration's code. The configuration has fields of
-- the Rust types, and sources that are neither multicast nor broadcast.
pub build_general_query-validates :
    (protocol : MembershipProtocol) (config : GeneralQueryConfig)
    → IsConfig config
    → validated_general_query protocol (build_general_query protocol config)
      ≡ ok (query_interval config.query_interval_code, build_general_query protocol config)
build_general_query-validates igmpv3 config c = build_igmpv3-validates config c
build_general_query-validates mldv2 config c = build_mldv2-validates config c
