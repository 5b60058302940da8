-- ===== src/Membership/Parse.antt =====
-- The parsers of membership.rs. Where the source reads records from an offset on, `rest` is the
-- message from that offset.
use Prim.Native.Nat.{bit_and}
use amt.Prelude.{
  ℕ, zero, suc, ◌+◌, ◌-◌, ◌*◌, ◌/◌, Bool, false, not, ◌||◌, List, [], ◌∷◌, Result, ok, err, ◌>>=◌,
  ◌>>◌, guard, ok_or, if◌then◌else◌, length, get_elem?, take, drop, ltb, leb, ◌==◌,
}
use amt.Prelude.Bytes.{byte_at, slice, from_be, to_be}
use amt.Address.{IpAddr, v4, v6, is_multicast, is_broadcast}
use amt.Checksum.{ones_complement_sum, icmpv6_checksum}
use amt.Ip.{has_ipv4_router_alert, has_ipv6_router_alert}
use amt.Protocol.{igmpv3, mldv2}
use amt.Membership.{
  MembershipRecord, MembershipReport, MembershipParseLimits, legacy_report, legacy_leave,
  MembershipParseError,
}
use amt.Membership.Checks.{
  RecordFormat, igmpv3_format, mldv2_format, record_header_len, record_kind, legacy_record,
  validate_record, validate_records, check_parse_limit, require_len, require_exact_len, read_ipv4,
  read_ipv6,
}

abbrev pub Parsed {ℓ} : Type ℓ → Type ℓ
Parsed A = Result MembershipParseError A

abbrev pub default_limits : MembershipParseLimits
default_limits = record { max_records = 512; max_sources_per_record = 128 }

-- The sources of a record, `count` of them.
unfoldable pub read_sources : RecordFormat → ℕ → List ℕ → List IpAddr
read_sources f zero bytes = []
read_sources f (suc count) bytes =
    f.address (from_be (take f.address_len bytes)) ∷ read_sources f count (drop f.address_len bytes)

-- One round of the loop over records: the record and its length.
unfoldable pub parse_record :
    RecordFormat → MembershipParseLimits → List ℕ → Parsed (MembershipRecord × ℕ)
parse_record f limits rest = do
  require_len f.one_record rest (record_header_len f)
  kind ← record_kind (byte_at rest 0)
  let aux_len = byte_at rest 1 * 4
  let source_count = from_be (slice rest 2 4)
  check_parse_limit "sources per record" source_count limits.max_sources_per_record
  let group = f.address (from_be (take f.address_len (drop 4 rest)))
  let record_len = record_header_len f + source_count * f.address_len + aux_len
  require_len f.one_record rest record_len
  let sources = read_sources f source_count (drop f.address_len (drop 4 rest))
  validate_record group sources
  ok (record { kind = kind; group = group; sources = sources }, record_len)

-- The records and the offset behind them.
unfoldable pub parse_each_record :
    RecordFormat → MembershipParseLimits → ℕ → ℕ → List ℕ → Parsed (List MembershipRecord × ℕ)
parse_each_record f limits zero offset rest = ok ([], offset)
parse_each_record f limits (suc count) offset rest = parse_record f limits rest >>= λ r.
    parse_each_record f limits count (offset + r.1) (drop r.1 rest) >>= λ rs. ok (r.0 ∷ rs.0, rs.1)

-- `parse_igmpv3_records` and `parse_mldv2_records`.
unfoldable pub parse_records :
    RecordFormat → MembershipParseLimits → List ℕ → Parsed (List MembershipRecord)
parse_records f limits message = do
  require_len f.report message 8
  let count = from_be (slice message 6 8)
  check_parse_limit "records" count limits.max_records
  guard (leb count ((length message - 8) / record_header_len f))
      (MembershipParseError.truncated f.records (8 + count * record_header_len f) (length message))
  records ← parse_each_record f limits count 8 (drop 8 message)
  require_exact_len f.report message records.1
  ok records.0

-- The `match` on the type of an IGMP message.
unfoldable pub parse_igmp : MembershipParseLimits → ℕ → List ℕ → Parsed (List MembershipRecord)
parse_igmp limits destination igmp =
    let kind = byte_at igmp 0 in
    let group = read_ipv4 igmp 4 in
    let wrong_destination = MembershipParseError.invalid_destination (v4 destination) in
    if kind == 0x16
    then (require_exact_len "IGMPv2 Membership Report" igmp 8 >>= λ _.
        if not (destination == group)
        then err wrong_destination
        else ok (legacy_record legacy_report (v4 group) ∷ []))
    else if kind == 0x17
    then (require_exact_len "IGMPv2 Leave Group" igmp 8 >>= λ _.
        if not (destination == 0xe0000002)
        then err wrong_destination
        else ok (legacy_record legacy_leave (v4 group) ∷ []))
    else if kind == 0x22
    then (if not (destination == 0xe0000016)
        then err wrong_destination
        else parse_records igmpv3_format limits igmp)
    else err (MembershipParseError.unsupported_membership_message kind)

unfoldable pub parse_ipv4_membership_report :
    List ℕ → MembershipParseLimits → Parsed MembershipReport
parse_ipv4_membership_report packet limits = do
  require_len "IPv4 header" packet 20
  let ihl = bit_and (byte_at packet 0) 0x0f * 4
  guard (leb 20 ihl) (MembershipParseError.invalid_ipv4_header_length ihl)
  require_len "IPv4 header" packet ihl
  let total_len = from_be (slice packet 2 4)
  guard (not (ltb total_len ihl || ltb (length packet) total_len))
      (MembershipParseError.invalid_total_length total_len (length packet))
  guard (byte_at packet 9 == 2) (MembershipParseError.invalid_protocol 2 (byte_at packet 9))
  guard (byte_at packet 8 == 1) (MembershipParseError.invalid_hop_limit (byte_at packet 8))
  guard (bit_and (from_be (slice packet 6 8)) 0x3fff == 0) MembershipParseError.fragmented_packet
  let source = v4 (read_ipv4 packet 12)
  guard (not (is_multicast source || is_broadcast source))
      (MembershipParseError.invalid_source_address source)
  guard (not (ihl == 20 || not (has_ipv4_router_alert (slice packet 20 ihl))))
      MembershipParseError.missing_ipv4_router_alert
  guard (ones_complement_sum (take ihl packet) == 0xffff)
      (MembershipParseError.invalid_checksum "IPv4 header")
  let igmp = slice packet ihl total_len
  require_len "IGMP message" igmp 8
  guard (ones_complement_sum igmp == 0xffff) (MembershipParseError.invalid_checksum "IGMP")
  records ← parse_igmp limits (read_ipv4 packet 16) igmp
  validate_records records
  ok (record { protocol = igmpv3; records = records })

-- The next header, the offset behind the hop-by-hop header and whether it has a router alert.
unfoldable pub hop_by_hop : List ℕ → ℕ → Parsed (ℕ × ℕ × Bool)
hop_by_hop packet total_len =
    let from_offset = slice packet 40 total_len in
    let extension_len = (byte_at packet 41 + 1) * 8 in
    if not (byte_at packet 6 == 0)
    then ok (byte_at packet 6, 40, false)
    else (require_len "IPv6 hop-by-hop header" from_offset 8 >>= λ _.
        require_len "IPv6 hop-by-hop header" from_offset extension_len >>= λ _. ok (
          byte_at packet 40,
          40 + extension_len,
          has_ipv6_router_alert (slice packet 42 (40 + extension_len)),
        ))

-- The `match` on the type of an MLD message.
unfoldable pub parse_mld : MembershipParseLimits → ℕ → List ℕ → Parsed (List MembershipRecord)
parse_mld limits destination icmp =
    let kind = byte_at icmp 0 in
    let group = read_ipv6 icmp 8 in
    let wrong_destination = MembershipParseError.invalid_destination (v6 destination) in
    if kind == 131
    then (require_exact_len "MLDv1 Listener Report" icmp 24 >>= λ _.
        if not (destination == group)
        then err wrong_destination
        else ok (legacy_record legacy_report (v6 group) ∷ []))
    else if kind == 132
    then (require_exact_len "MLDv1 Listener Done" icmp 24 >>= λ _.
        if not (destination == 0xff02_0000_0000_0000_0000_0000_0000_0002)
        then err wrong_destination
        else ok (legacy_record legacy_leave (v6 group) ∷ []))
    else if kind == 143
    then (if not (destination == 0xff02_0000_0000_0000_0000_0000_0000_0016)
        then err wrong_destination
        else parse_records mldv2_format limits icmp)
    else err (MembershipParseError.unsupported_membership_message kind)

unfoldable pub parse_ipv6_membership_report :
    List ℕ → MembershipParseLimits → Parsed MembershipReport
parse_ipv6_membership_report packet limits = do
  require_len "IPv6 header" packet 40
  let total_len = 40 + from_be (slice packet 4 6)
  guard (leb total_len (length packet))
      (MembershipParseError.invalid_total_length total_len (length packet))
  guard (byte_at packet 7 == 1) (MembershipParseError.invalid_protocol 1 (byte_at packet 7))
  let source = read_ipv6 packet 8
  guard (not (is_multicast (v6 source))) (MembershipParseError.invalid_source_address (v6 source))
  let destination = read_ipv6 packet 24
  h ← hop_by_hop packet total_len
  guard h.2 MembershipParseError.missing_ipv6_router_alert
  guard (h.0 == 58) (MembershipParseError.invalid_protocol 58 h.0)
  let icmp = slice packet h.1 total_len
  require_len "MLD message" icmp 8
  guard (icmpv6_checksum (to_be 16 source) (to_be 16 destination) 58 icmp == 0)
      (MembershipParseError.invalid_checksum "ICMPv6")
  records ← parse_mld limits destination icmp
  validate_records records
  ok (record { protocol = mldv2; records = records })

unfoldable pub parse_membership_report_with_limits :
    List ℕ → MembershipParseLimits → Parsed MembershipReport
parse_membership_report_with_limits packet limits = do
  first ← ok_or (get_elem? packet 0) (MembershipParseError.truncated "IP packet" 1 0)
  let version = first / 16
  if version == 4
      then parse_ipv4_membership_report packet limits
      else if version == 6
      then parse_ipv6_membership_report packet limits
      else err (MembershipParseError.invalid_ip_version version)

unfoldable pub parse_membership_report : List ℕ → Parsed MembershipReport
parse_membership_report packet = parse_membership_report_with_limits packet default_limits
