-- ===== src/Query/Tests.antt =====
-- The default configuration, and an interval that no code expresses.
use amt.Prelude.{◌≡◌, ◌≤◌, refl, arith, ok}
use amt.Address.{is_multicast, is_broadcast}
use amt.Protocol.{mldv2}
use amt.Query.{
  for_amt, query_interval, encode_query_interval, build_general_query, validated_general_query,
}
use amt.Query.Interval.{encode_query_interval-least}
use amt.Query.Laws.{IsConfig, build_general_query-validates}

covers : 1000 ≤ query_interval 176
unfolding query_interval
covers = omega arith

encode_query_interval-least_example :
    (1000 ≤ query_interval (encode_query_interval 1000)) × (encode_query_interval 1000 ≤ 176)
encode_query_interval-least_example =
    encode_query_interval-least 1000 176 (omega arith) (omega arith) covers

for_amt-IsConfig : IsConfig for_amt
unfolding is_multicast is_broadcast
for_amt-IsConfig = record {
  igmp_source_fits = omega arith;
  igmp_unicast = refl;
  mld_source_fits = omega arith;
  mld_unicast = refl;
  igmp_max_response_code_fits = omega arith;
  mld_max_response_code_fits = omega arith;
  robustness_variable_fits = omega arith;
  query_interval_code_fits = omega arith;
}

build_general_query-validates_example :
    validated_general_query mldv2 (build_general_query mldv2 for_amt)
    ≡ ok (query_interval for_amt.query_interval_code, build_general_query mldv2 for_amt)
build_general_query-validates_example = build_general_query-validates mldv2 for_amt for_amt-IsConfig
