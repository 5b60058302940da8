-- ===== src/Membership/Packets.antt =====
-- The packets around membership records parse back to the records: the lengths, the checksums and the
-- Router Alert options that the builders of membership.rs write are those its parsers ask for.
use amt.Prelude.{
  ℕ, ◌+◌, ◌-◌, ◌*◌, ◌/◌, ◌%◌, ◌^◌, ◌≤◌, ◌<◌, ◌≡◌, sym, ap, ◌∙◌, arith, true, List, [], ◌∷◌, ◌++◌,
  ok, length, take_all, All, All-append, leb,
}
use mathlib.Core.List.{append-nil}
use amt.Prelude.Bytes.{IsByte, from_be, to_be, from_be-to_be, to_be-IsByte}
use amt.Checksum.{checksum, ones_complement_sum, icmpv6_checksum}
use amt.Checksum.Laws.{checksum_verifies, checksum_parts-concat, checksum-complement}
use amt.Ip.{has_ipv4_router_alert, has_ipv6_router_alert}
use amt.Address.{is_multicast, is_broadcast}
use amt.Protocol.{MembershipProtocol, igmpv3, mldv2}
use amt.Membership.{MembershipRecord, MembershipParseLimits}
use amt.Membership.Checks.{
  record_header_len, check_parse_limit, require_len, require_exact_len, validate_records,
}
use amt.Membership.Build.{
  igmpv3_report_destination, mldv2_report_destination, encode_records, igmp_report,
  igmp_report_header, igmp_packet, mld_report, mld_packet,
}
use amt.Membership.Parse.{
  parse_each_record, parse_records, parse_igmp, parse_ipv4_membership_report, hop_by_hop, parse_mld,
  parse_ipv6_membership_report,
}
use amt.Membership.Records.{IsWritable, parse_each_record-encode_records, length-encode_records}
use amt.Membership.Built.{format}

count_fits :
    (protocol : MembershipProtocol) (count len : ℕ)
    → count * record_header_len (format protocol) ≤ len
    → leb count (len / record_header_len (format protocol)) ≡ true
count_fits igmpv3 count len h = ground arith
count_fits mldv2 count len h = ground arith

pub parse_records-encode_records :
    (protocol : MembershipProtocol) (limits : MembershipParseLimits)
    (records : List MembershipRecord) (bytes : List ℕ) (a b c d : ℕ)
    → All (IsWritable (format protocol) limits) records
    → encode_records records ≡ ok bytes
    → length records < 2 ^ 16
    → length records ≤ limits.max_records
    → parse_records
        (format protocol)
        limits
        (a ∷ b ∷ c ∷ d ∷ 0 ∷ 0 ∷ (to_be 2 (length records % 2 ^ 16) ++ bytes))
      ≡ ok records
unfolding parse_records require_len check_parse_limit require_exact_len
parse_records-encode_records protocol limits records bytes a b c d w e counted limited =
    let n = length records in
    let read : from_be (to_be 2 (n % 2 ^ 16)) ≡ n =
      from_be-to_be 2 (n % 2 ^ 16) (omega arith) ∙ omega arith in
    let loop =
      ap (λ (bs : List ℕ). parse_each_record (format protocol) limits n 8 bs)
        (sym (append-nil bytes))
      ∙ parse_each_record-encode_records (format protocol) limits records 8 bytes [] w e in
    let enough =
      count_fits protocol n (length bytes)
        (length-encode_records (format protocol) limits records bytes w e) in
    rw (read, loop) (ground (arith, enough))

read_u16 : (n : ℕ) → n < 2 ^ 16 → from_be (to_be 2 (n % 2 ^ 16)) ≡ n
read_u16 n h = from_be-to_be 2 (n % 2 ^ 16) (omega arith) ∙ omega arith

igmp_report-sum :
    (count : ℕ) (bytes : List ℕ)
    → All IsByte bytes
    → ones_complement_sum
        (igmp_report count bytes (to_be 2 (checksum (igmp_report count bytes (0 ∷ 0 ∷ [])))))
      ≡ 0xffff
igmp_report-sum count bytes h =
    checksum_verifies (0x22 ∷ 0 ∷ []) (0 ∷ 0 ∷ (to_be 2 (count % 2 ^ 16) ++ bytes)) tt
      (ground arith)
      (
        omega arith,
        (
          omega arith,
          All-append IsByte (to_be 2 (count % 2 ^ 16)) bytes (to_be-IsByte 2 (count % 2 ^ 16)) h,
        ),
      )

igmp_report_header-sum :
    (total_len : ℕ)
    → ones_complement_sum (
        igmp_report_header total_len
          (to_be 2 (checksum (igmp_report_header total_len (0 ∷ 0 ∷ [])))))
      ≡ 0xffff
igmp_report_header-sum total_len =
    checksum_verifies (0x46 ∷ 0xc0 ∷ (to_be 2 (total_len % 2 ^ 16) ++ (0 ∷ 0 ∷ 0 ∷ 0 ∷ 1 ∷ 2 ∷ [])))
      (0 ∷ 0 ∷ 0 ∷ 0 ∷ (igmpv3_report_destination ++ (0x94 ∷ 4 ∷ 0 ∷ 0 ∷ []))) tt (ground arith)
      (ground arith)

pub parse-igmp_packet :
    (limits : MembershipParseLimits) (total_len count : ℕ) (bytes : List ℕ)
    (records : List MembershipRecord)
    → total_len ≡ 32 + length bytes
    → total_len < 2 ^ 16
    → All IsByte bytes
    → parse_igmp limits 0xe0000016
        (igmp_report count bytes (to_be 2 (checksum (igmp_report count bytes (0 ∷ 0 ∷ [])))))
      ≡ ok records
    → validate_records records ≡ ok tt
    → parse_ipv4_membership_report (igmp_packet total_len count bytes) limits
      ≡ ok (record { protocol = igmpv3; records = records })
unfolding igmp_packet parse_ipv4_membership_report require_len has_ipv4_router_alert is_multicast
    is_broadcast
parse-igmp_packet limits total_len count bytes records total small h parsed valid = ground (
  arith,
  read_u16 total_len small,
  igmp_report-sum count bytes h,
  igmp_report_header-sum total_len,
  take_all (total_len - 24)
      (igmp_report count bytes (to_be 2 (checksum (igmp_report count bytes (0 ∷ 0 ∷ [])))))
      (omega arith),
  parsed,
  valid,
)

-- The pseudo-header and the first bytes of the MLD message.
abbrev mld_front : ℕ → List ℕ
mld_front len =
    to_be 16 0
    ++ (mldv2_report_destination ++ (to_be 4 (len % 2 ^ 32) ++ (0 ∷ 0 ∷ 0 ∷ 58 ∷ 143 ∷ 0 ∷ [])))

icmpv6_checksum-mld_report :
    (count : ℕ) (bytes : List ℕ) (a b : ℕ)
    → icmpv6_checksum (to_be 16 0) mldv2_report_destination 58 (mld_report count bytes (a ∷ b ∷ []))
      ≡ checksum (
          mld_front (length (mld_report count bytes (0 ∷ 0 ∷ [])))
          ++ (a ∷ b ∷ 0 ∷ 0 ∷ (to_be 2 (count % 2 ^ 16) ++ bytes)))
unfolding icmpv6_checksum
icmpv6_checksum-mld_report count bytes a b =
    checksum_parts-concat (
      to_be 16 0
      ∷ mldv2_report_destination
      ∷ to_be 4 ((length (mld_report count bytes (0 ∷ 0 ∷ []))) % 2 ^ 32)
      ∷ (0 ∷ 0 ∷ 0 ∷ 58 ∷ [])
      ∷ mld_report count bytes (a ∷ b ∷ [])
      ∷ [])
    ∙ ap
        (λ (bs : List ℕ). checksum (
          mld_front (length (mld_report count bytes (0 ∷ 0 ∷ [])))
          ++ (a ∷ b ∷ 0 ∷ 0 ∷ (to_be 2 (count % 2 ^ 16) ++ bs))))
        (append-nil bytes)

mld_report-sum :
    (count : ℕ) (bytes : List ℕ)
    → All IsByte bytes
    → icmpv6_checksum (to_be 16 0) mldv2_report_destination 58 (
        mld_report count bytes (
          to_be 2 (
            icmpv6_checksum
              (to_be 16 0)
              mldv2_report_destination
              58
              (mld_report count bytes (0 ∷ 0 ∷ [])))))
      ≡ 0
mld_report-sum count bytes h =
    icmpv6_checksum-mld_report count bytes _ _
    ∙ checksum-complement _
    ∙ ap (λ (n : ℕ). 0xffff - n)
        (ap
            (λ (n : ℕ). ones_complement_sum (
              mld_front (length (mld_report count bytes (0 ∷ 0 ∷ [])))
              ++ (to_be 2 n ++ (0 ∷ 0 ∷ (to_be 2 (count % 2 ^ 16) ++ bytes)))))
            (icmpv6_checksum-mld_report count bytes 0 0)
          ∙ checksum_verifies (mld_front (length (mld_report count bytes (0 ∷ 0 ∷ []))))
              (0 ∷ 0 ∷ (to_be 2 (count % 2 ^ 16) ++ bytes)) tt (ground arith)
              (
                omega arith,
                (
                  omega arith,
                  All-append IsByte (to_be 2 (count % 2 ^ 16)) bytes
                      (to_be-IsByte 2 (count % 2 ^ 16)) h,
                ),
              ))

pub parse-mld_packet :
    (limits : MembershipParseLimits) (payload_len count : ℕ) (bytes : List ℕ)
    (records : List MembershipRecord)
    → payload_len ≡ 16 + length bytes
    → payload_len < 2 ^ 16
    → All IsByte bytes
    → parse_mld limits 0xff02_0000_0000_0000_0000_0000_0000_0016 (
        mld_report count bytes (
          to_be 2 (
            icmpv6_checksum
              (to_be 16 0)
              mldv2_report_destination
              58
              (mld_report count bytes (0 ∷ 0 ∷ [])))))
      ≡ ok records
    → validate_records records ≡ ok tt
    → parse_ipv6_membership_report (mld_packet payload_len count bytes) limits
      ≡ ok (record { protocol = mldv2; records = records })
unfolding mld_packet parse_ipv6_membership_report require_len hop_by_hop has_ipv6_router_alert
    is_multicast
parse-mld_packet limits payload_len count bytes records payload small h parsed valid = ground (
  arith,
  read_u16 payload_len small,
  mld_report-sum count bytes h,
  take_all (payload_len - 8)
      (mld_report count bytes (
        to_be 2 (
          icmpv6_checksum (to_be 16 0) mldv2_report_destination 58
            (mld_report count bytes (0 ∷ 0 ∷ [])))))
      (omega arith),
  parsed,
  valid,
)
