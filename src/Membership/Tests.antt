-- ===== src/Membership/Tests.antt =====
-- A report with two records, which is built and parsed.
use amt.Prelude.{ℕ, ◌≡◌, refl, arith, List, [], ◌∷◌, ok}
use amt.Address.{v4, is_multicast, is_unspecified, is_broadcast}
use amt.Checksum.{
  add_word, sum_part, sum_parts, ones_complement_sum_parts, checksum_parts, checksum,
}
use amt.Ip.{is_amt_forwardable_group}
use amt.Protocol.{igmpv3}
use amt.Membership.{MembershipReport, mode_is_exclude, allow_new_sources}
use amt.Membership.Build.{
  records_len, checked_mul_sources, source_bytes, record_bytes, encode_records, igmp_packet,
  build_igmpv3_membership_report, build_membership_report,
}
use amt.Membership.Checks.{
  encode_record_kind, any_bad_source, validate_build_record, validate_each_build_record,
  validate_build_records,
}
use amt.Membership.Parse.{default_limits, parse_membership_report_with_limits}
use amt.Membership.RoundTrip.{build_membership_report-parses}
use amt.Membership.Parsed.{Records, parse_membership_report-Records}

abbrev pub report : MembershipReport
report = record {
  protocol = igmpv3;
  records =
      record { kind = allow_new_sources; group = v4 0xe8010203; sources = v4 0xc000020a ∷ [] }
      ∷ record { kind = mode_is_exclude; group = v4 0xe9010203; sources = [] }
      ∷ [];
}

abbrev pub packet : List ℕ
packet =
    70 ∷ 192 ∷ 0 ∷ 52 ∷ 0 ∷ 0 ∷ 0 ∷ 0 ∷ 1 ∷ 2 ∷ 67 ∷ 238 ∷ 0 ∷ 0 ∷ 0 ∷ 0 ∷ 224 ∷ 0 ∷ 0 ∷ 22 ∷ 148
    ∷ 4 ∷ 0 ∷ 0 ∷ 34 ∷ 0 ∷ 63 ∷ 232 ∷ 0 ∷ 0 ∷ 0 ∷ 2 ∷ 5 ∷ 0 ∷ 0 ∷ 1 ∷ 232 ∷ 1 ∷ 2 ∷ 3 ∷ 192 ∷ 0 ∷ 2
    ∷ 10 ∷ 2 ∷ 0 ∷ 0 ∷ 0 ∷ 233 ∷ 1 ∷ 2 ∷ 3 ∷ []

pub report_built : build_membership_report report ≡ ok packet
unfolding build_membership_report build_igmpv3_membership_report validate_build_records
    validate_each_build_record validate_build_record encode_record_kind any_bad_source
    is_amt_forwardable_group is_multicast is_unspecified is_broadcast records_len
    checked_mul_sources encode_records record_bytes source_bytes igmp_packet checksum checksum_parts
    ones_complement_sum_parts sum_parts sum_part add_word
report_built = refl

build_membership_report-parses_example :
    parse_membership_report_with_limits packet default_limits ≡ ok report
build_membership_report-parses_example =
    build_membership_report-parses default_limits report packet report_built (omega arith)
      (omega arith)

parse_membership_report-Records_example : Records report.protocol default_limits report.records
parse_membership_report-Records_example =
    parse_membership_report-Records packet default_limits report (
      build_membership_report-parses default_limits report packet report_built (omega arith)
        (omega arith))
