-- ===== src/Membership/Build.antt =====
-- The builders of membership.rs. Records of the other family are refused by
-- `validate_build_records` before they are written, so that the source's `unreachable!` stands for
-- nothing here. A `usize` has 64 bits, which no length of a report exceeds.
use amt.Prelude.{
  ℕ, ◌+◌, ◌*◌, ◌%◌, ◌^◌, List, [], ◌∷◌, ◌++◌, Result, ok, err, ◌>>=◌, if◌then◌else◌, length, ltb,
}
use amt.Prelude.Bytes.{to_be}
use amt.Address.{IpAddr, octets}
use amt.Checksum.{checksum, icmpv6_checksum}
use amt.Protocol.{igmpv3, mldv2}
use amt.Membership.{MembershipRecord, MembershipReport, MembershipBuildError}
use amt.Membership.Checks.{
  RecordFormat, igmpv3_format, mldv2_format, record_header_len, encode_record_kind,
  validate_build_records,
}

-- 224.0.0.22 and ff02::16.
abbrev pub igmpv3_report_destination : List ℕ
igmpv3_report_destination = 224 ∷ 0 ∷ 0 ∷ 22 ∷ []

abbrev pub mldv2_report_destination : List ℕ
mldv2_report_destination = 0xff ∷ 2 ∷ 0 ∷ 0 ∷ 0 ∷ 0 ∷ 0 ∷ 0 ∷ 0 ∷ 0 ∷ 0 ∷ 0 ∷ 0 ∷ 0 ∷ 0 ∷ 0x16 ∷ []

unfoldable pub checked_mul_sources : ℕ → ℕ → Result MembershipBuildError ℕ
checked_mul_sources source_count source_len =
    if ltb 0xffff source_count
    then err (MembershipBuildError.too_many_sources source_count)
    else ok (source_count * source_len)

-- The `try_fold` over the records.
unfoldable pub records_len :
    RecordFormat → ℕ → List MembershipRecord → Result MembershipBuildError ℕ
records_len f len [] = ok len
records_len f len (r ∷ rest) =
    checked_mul_sources (length r.sources) f.address_len >>= λ source_len.
    records_len f (len + (record_header_len f + source_len)) rest

unfoldable pub source_bytes : List IpAddr → List ℕ
source_bytes [] = []
source_bytes (source ∷ rest) = octets source ++ source_bytes rest

-- The bytes of one record, of the kind that `kind` encodes; its auxiliary data is empty.
unfoldable pub record_bytes : ℕ → MembershipRecord → List ℕ
record_bytes kind r =
    kind ∷ 0 ∷ (to_be 2 (length r.sources) ++ (octets r.group ++ source_bytes r.sources))

unfoldable pub encode_records : List MembershipRecord → Result MembershipBuildError (List ℕ)
encode_records [] = ok []
encode_records (r ∷ rest) = encode_record_kind r.kind >>= λ kind.
    encode_records rest >>= λ bytes. ok (record_bytes kind r ++ bytes)

-- The IGMP message around its checksum, and the IPv4 header around its own.
abbrev pub igmp_report : ℕ → List ℕ → List ℕ → List ℕ
igmp_report count bytes sum =
    0x22 ∷ 0 ∷ [] ++ (sum ++ (0 ∷ 0 ∷ (to_be 2 (count % 2 ^ 16) ++ bytes)))

abbrev pub igmp_report_header : ℕ → List ℕ → List ℕ
igmp_report_header total_len sum =
    0x46 ∷ 0xc0 ∷ (to_be 2 (total_len % 2 ^ 16) ++ (0 ∷ 0 ∷ 0 ∷ 0 ∷ 1 ∷ 2 ∷ []))
    ++ (sum ++ (0 ∷ 0 ∷ 0 ∷ 0 ∷ (igmpv3_report_destination ++ (0x94 ∷ 4 ∷ 0 ∷ 0 ∷ []))))

unfoldable pub igmp_packet : ℕ → ℕ → List ℕ → List ℕ
igmp_packet total_len count bytes =
    let igmp_checksum = checksum (igmp_report count bytes (0 ∷ 0 ∷ [])) in
    let header_checksum = checksum (igmp_report_header total_len (0 ∷ 0 ∷ [])) in
    igmp_report_header total_len (to_be 2 header_checksum)
    ++ igmp_report count bytes (to_be 2 igmp_checksum)

unfoldable pub build_igmpv3_membership_report :
    List MembershipRecord → Result MembershipBuildError (List ℕ)
build_igmpv3_membership_report records = validate_build_records igmpv3 records >>= λ _.
    records_len igmpv3_format 0 records >>= λ len.
    if ltb 0xffff (24 + (8 + len))
    then err (MembershipBuildError.packet_too_long (24 + (8 + len)))
    else (encode_records records >>= λ bytes.
        ok (igmp_packet (24 + (8 + len)) (length records) bytes))

abbrev pub mld_report : ℕ → List ℕ → List ℕ → List ℕ
mld_report count bytes sum = 143 ∷ 0 ∷ [] ++ (sum ++ (0 ∷ 0 ∷ (to_be 2 (count % 2 ^ 16) ++ bytes)))

unfoldable pub mld_packet : ℕ → ℕ → List ℕ → List ℕ
mld_packet payload_len count bytes =
    let source = to_be 16 0 in
    let mld_checksum =
      icmpv6_checksum source mldv2_report_destination 58 (mld_report count bytes (0 ∷ 0 ∷ [])) in
    0x60 ∷ 0 ∷ 0 ∷ 0 ∷ (to_be 2 (payload_len % 2 ^ 16) ++ (0 ∷ 1 ∷ []))
    ++ (source
        ++ (mldv2_report_destination
            ++ (58 ∷ 0 ∷ 5 ∷ 2 ∷ 0 ∷ 0 ∷ 1 ∷ 0 ∷ []
                ++ mld_report count bytes (to_be 2 mld_checksum))))

unfoldable pub build_mldv2_membership_report :
    List MembershipRecord → Result MembershipBuildError (List ℕ)
build_mldv2_membership_report records = validate_build_records mldv2 records >>= λ _.
    records_len mldv2_format 0 records >>= λ len.
    if ltb 0xffff (8 + (8 + len))
    then err (MembershipBuildError.packet_too_long (40 + (8 + (8 + len))))
    else (encode_records records >>= λ bytes.
        ok (mld_packet (8 + (8 + len)) (length records) bytes))

unfoldable pub build_membership_report : MembershipReport → Result MembershipBuildError (List ℕ)
build_membership_report report = elim report.protocol [
  | igmpv3 ↦ build_igmpv3_membership_report report.records
  | mldv2 ↦ build_mldv2_membership_report report.records
]
