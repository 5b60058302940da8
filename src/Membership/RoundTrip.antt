-- ===== src/Membership/RoundTrip.antt =====
-- A membership report that membership.rs builds parses back.
use amt.Prelude.{ℕ, ◌+◌, ◌≤◌, ◌≡◌, refl, arith, List, ok, >>=-eq-ok, refuse-eq-ok, length, All, ltb}
use amt.Protocol.{MembershipProtocol, igmpv3, mldv2}
use amt.Membership.{MembershipRecord, MembershipReport, MembershipParseLimits}
use amt.Membership.Checks.{igmpv3_format, mldv2_format, validate_build_records}
use amt.Membership.Build.{
  records_len, encode_records, igmp_packet, build_igmpv3_membership_report, mld_packet,
  build_mldv2_membership_report, build_membership_report,
}
use amt.Membership.Parse.{
  parse_igmp, parse_ipv4_membership_report, parse_mld, parse_ipv6_membership_report,
  parse_membership_report_with_limits,
}
use amt.Membership.Records.{encode_records-IsByte, records_len-encode_records}
use amt.Membership.Built.{IsRecord, validate_build_records-IsWritable, IsWritable-validate_records}
use amt.Membership.Packets.{parse_records-encode_records, parse-igmp_packet, parse-mld_packet}

parse_membership_report-igmp_packet :
    (limits : MembershipParseLimits) (total_len count : ℕ) (bytes : List ℕ)
    → parse_membership_report_with_limits (igmp_packet total_len count bytes) limits
      ≡ parse_ipv4_membership_report (igmp_packet total_len count bytes) limits
unfolding parse_membership_report_with_limits igmp_packet
parse_membership_report-igmp_packet limits total_len count bytes = refl

parse_membership_report-mld_packet :
    (limits : MembershipParseLimits) (payload_len count : ℕ) (bytes : List ℕ)
    → parse_membership_report_with_limits (mld_packet payload_len count bytes) limits
      ≡ parse_ipv6_membership_report (mld_packet payload_len count bytes) limits
unfolding parse_membership_report_with_limits mld_packet
parse_membership_report-mld_packet limits payload_len count bytes = refl

igmpv3_membership_report_parses :
    (limits : MembershipParseLimits) (records : List MembershipRecord) (packet : List ℕ)
    → build_igmpv3_membership_report records ≡ ok packet
    → All (IsRecord limits) records
    → length records ≤ limits.max_records
    → parse_membership_report_with_limits packet limits
      ≡ ok (record { protocol = igmpv3; records = records })
unfolding build_igmpv3_membership_report parse_igmp
igmpv3_membership_report_parses limits records packet h a limited =
    let (_, valid, h1) = >>=-eq-ok (validate_build_records igmpv3 records) _ h in
    let (w, counted) = validate_build_records-IsWritable igmpv3 limits records valid a in
    let (len, sized, h2) = >>=-eq-ok (records_len igmpv3_format 0 records) _ h1 in
    let (small, h3) = refuse-eq-ok (ltb 0xffff (24 + (8 + len))) _ _ h2 in
    let (bytes, encoded, last) = >>=-eq-ok (encode_records records) _ h3 in
    let same : packet ≡ igmp_packet (24 + (8 + len)) (length records) bytes = cc in
    let exact =
      records_len-encode_records igmpv3_format limits records 0 len bytes w sized encoded in
    rw (same, parse_membership_report-igmp_packet limits (24 + (8 + len)) (length records) bytes)
      (parse-igmp_packet limits (24 + (8 + len)) (length records) bytes records
        (omega (arith, exact)) (ground (arith, small)) (encode_records-IsByte records bytes encoded)
        (parse_records-encode_records igmpv3 limits records bytes 0x22 0 _ _ w encoded counted
          limited)
        (IsWritable-validate_records igmpv3_format limits records w))

mldv2_membership_report_parses :
    (limits : MembershipParseLimits) (records : List MembershipRecord) (packet : List ℕ)
    → build_mldv2_membership_report records ≡ ok packet
    → All (IsRecord limits) records
    → length records ≤ limits.max_records
    → parse_membership_report_with_limits packet limits
      ≡ ok (record { protocol = mldv2; records = records })
unfolding build_mldv2_membership_report parse_mld
mldv2_membership_report_parses limits records packet h a limited =
    let (_, valid, h1) = >>=-eq-ok (validate_build_records mldv2 records) _ h in
    let (w, counted) = validate_build_records-IsWritable mldv2 limits records valid a in
    let (len, sized, h2) = >>=-eq-ok (records_len mldv2_format 0 records) _ h1 in
    let (small, h3) = refuse-eq-ok (ltb 0xffff (8 + (8 + len))) _ _ h2 in
    let (bytes, encoded, last) = >>=-eq-ok (encode_records records) _ h3 in
    let same : packet ≡ mld_packet (8 + (8 + len)) (length records) bytes = cc in
    let exact =
      records_len-encode_records mldv2_format limits records 0 len bytes w sized encoded in
    rw (same, parse_membership_report-mld_packet limits (8 + (8 + len)) (length records) bytes)
      (parse-mld_packet limits (8 + (8 + len)) (length records) bytes records (omega (arith, exact))
        (ground (arith, small)) (encode_records-IsByte records bytes encoded)
        (parse_records-encode_records mldv2 limits records bytes 143 0 _ _ w encoded counted
          limited)
        (IsWritable-validate_records mldv2_format limits records w))

membership_report_parses :
    (limits : MembershipParseLimits) (protocol : MembershipProtocol)
    (records : List MembershipRecord) (packet : List ℕ)
    → build_membership_report (record { protocol = protocol; records = records }) ≡ ok packet
    → All (IsRecord limits) records
    → length records ≤ limits.max_records
    → parse_membership_report_with_limits packet limits
      ≡ ok (record { protocol = protocol; records = records })
unfolding build_membership_report
membership_report_parses limits igmpv3 = igmpv3_membership_report_parses limits
membership_report_parses limits mldv2 = mldv2_membership_report_parses limits

-- A membership report that is built parses back to itself, under limits that allow its number of
-- records and the number of sources of each, if its addresses are within their 32 or 128 bits.
pub build_membership_report-parses :
    (limits : MembershipParseLimits) (report : MembershipReport) (packet : List ℕ)
    → build_membership_report report ≡ ok packet
    → All (IsRecord limits) report.records
    → length report.records ≤ limits.max_records
    → parse_membership_report_with_limits packet limits ≡ ok report
build_membership_report-parses limits report packet h a limited =
    membership_report_parses limits report.protocol report.records packet h a limited
