-- ===== src/Membership/Parsed.antt =====
-- What a membership report is that parses.
use amt.Prelude.{
  ℕ, zero, suc, ◌+◌, ◌*◌, ◌/◌, ◌≤◌, ◌==◌, take, bit_and, ◌≡◌, refl, arith, true, false, ◌⊎◌, inl,
  inr, Bool-cases, List, [], ◌∷◌, ok, >>=-eq-ok, Result-cases, length, drop, All,
}
use amt.Prelude.Bytes.{byte_at, slice, from_be}
use amt.Address.{IpAddr, v4, v6, same_family, is_multicast, is_unspecified, is_broadcast}
use amt.Protocol.{MembershipProtocol, igmpv3, mldv2}
use amt.Membership.{
  MembershipRecord, MembershipReport, MembershipParseLimits, legacy_report, legacy_leave,
}
use amt.Membership.Checks.{
  RecordFormat, family_matches, any_bad_source, validate_record, validate_records, legacy_record,
  check_parse_limit, read_ipv4, read_ipv6,
}
use amt.Membership.Built.{format}
use amt.Membership.Parse.{
  read_sources, parse_record, parse_each_record, parse_records, parse_igmp, parse_mld, hop_by_hop,
  parse_ipv4_membership_report, parse_ipv6_membership_report, parse_membership_report_with_limits,
}

-- A source is of the group's family, and neither unspecified, multicast nor broadcast.
pub record IsSourceOf (group source : IpAddr) : Type 0 where
  pub family : same_family group source ≡ true
  pub specified : is_unspecified source ≡ false
  pub unicast : is_multicast source ≡ false
  pub single : is_broadcast source ≡ false

-- A record has a multicast group of the protocol's family, and as many sources as are allowed.
pub record IsParsed (protocol : MembershipProtocol) (limits : MembershipParseLimits)
    (r : MembershipRecord) : Type 0 where
  pub family : family_matches protocol r.group ≡ true
  pub multicast : is_multicast r.group ≡ true
  pub sources : All (IsSourceOf r.group) r.sources
  pub counted : length r.sources ≤ limits.max_sources_per_record

-- The one record of an IGMPv2 or MLDv1 message.
pub record IsLegacy (protocol : MembershipProtocol) (records : List MembershipRecord) : Type 0 where
  pub group : IpAddr
  pub family : family_matches protocol group ≡ true
  pub multicast : is_multicast group ≡ true
  pub single :
      (records ≡ legacy_record legacy_report group ∷ [])
      ⊎ (records ≡ legacy_record legacy_leave group ∷ [])

any_bad_source-IsSourceOf :
    (group : IpAddr) (sources : List IpAddr)
    → any_bad_source group sources ≡ false
    → All (IsSourceOf group) sources
unfolding any_bad_source is_broadcast
any_bad_source-IsSourceOf group [] h = tt
any_bad_source-IsSourceOf group (v4 s ∷ rest) h =
    (ground arith, any_bad_source-IsSourceOf group rest (ground arith))
any_bad_source-IsSourceOf group (v6 s ∷ rest) h =
    (ground arith, any_bad_source-IsSourceOf group rest (ground arith))

validate_record-ok :
    (group : IpAddr) (sources : List IpAddr)
    → validate_record group sources ≡ ok tt
    → (is_multicast group ≡ true) × (any_bad_source group sources ≡ false)
unfolding validate_record
validate_record-ok group sources h = (ground arith, ground arith)

legacy-validate :
    (group : IpAddr) (records : List MembershipRecord)
    → validate_records records ≡ ok tt
    → ((records ≡ legacy_record legacy_report group ∷ [])
        ⊎ (records ≡ legacy_record legacy_leave group ∷ []))
    → is_multicast group ≡ true
unfolding validate_records validate_record
legacy-validate group records valid (inl e) = ground arith
legacy-validate group records valid (inr e) = ground arith

single-IsLegacy :
    (protocol : MembershipProtocol) (group : IpAddr) (records : List MembershipRecord)
    → family_matches protocol group ≡ true
    → validate_records records ≡ ok tt
    → ((records ≡ legacy_record legacy_report group ∷ [])
        ⊎ (records ≡ legacy_record legacy_leave group ∷ []))
    → IsLegacy protocol records
single-IsLegacy protocol group records family valid single = record {
  group = group;
  family = family;
  multicast = legacy-validate group records valid single;
  single = single;
}

length-read_sources :
    (f : RecordFormat) (count : ℕ) (bytes : List ℕ) → length (read_sources f count bytes) ≡ count
unfolding read_sources
length-read_sources f zero bytes = refl
length-read_sources f (suc count) bytes =
    omega (arith, length-read_sources f count (drop f.address_len bytes))

format-family_matches :
    (protocol : MembershipProtocol) (n : ℕ)
    → family_matches protocol ((format protocol).address n) ≡ true
format-family_matches igmpv3 n = refl
format-family_matches mldv2 n = refl

parse_record-ok :
    (f : RecordFormat) (limits : MembershipParseLimits) (rest : List ℕ) (r : MembershipRecord)
    (n : ℕ)
    → parse_record f limits rest ≡ ok (r, n)
    → (r.group ≡ f.address (from_be (take f.address_len (drop 4 rest))))
      × (validate_record r.group r.sources ≡ ok tt)
      × (length r.sources ≤ limits.max_sources_per_record)
unfolding parse_record check_parse_limit
parse_record-ok f limits rest r n h =
    let count = from_be (slice rest 2 4) in
    let body = drop f.address_len (drop 4 rest) in
    (ground arith, ground arith, ground (arith, length-read_sources f count body))

parse_record-IsParsed :
    (protocol : MembershipProtocol) (limits : MembershipParseLimits) (rest : List ℕ)
    (r : MembershipRecord) (n : ℕ)
    → parse_record (format protocol) limits rest ≡ ok (r, n)
    → IsParsed protocol limits r
parse_record-IsParsed protocol limits rest r n h =
    let (address, valid, counted) = parse_record-ok (format protocol) limits rest r n h in
    let (multicast, good) = validate_record-ok r.group r.sources valid in
    record {
      family = rw address (format-family_matches protocol _);
      multicast = multicast;
      sources = any_bad_source-IsSourceOf r.group r.sources good;
      counted = counted;
    }

parse_each_record-IsParsed :
    (protocol : MembershipProtocol) (limits : MembershipParseLimits) (count offset : ℕ)
    (rest : List ℕ) (records : List MembershipRecord) (last : ℕ)
    → parse_each_record (format protocol) limits count offset rest ≡ ok (records, last)
    → All (IsParsed protocol limits) records × (length records ≡ count)
unfolding parse_each_record
parse_each_record-IsParsed protocol limits zero offset rest records last h =
    let same : records ≡ [] = ground arith in rw same (tt, refl)
parse_each_record-IsParsed protocol limits (suc count) offset rest records last h =
    let ((r, n), first, h') = >>=-eq-ok (parse_record (format protocol) limits rest) _ h in
    let ((others, last'), following, h'') =
      >>=-eq-ok (parse_each_record (format protocol) limits count (offset + n) (drop n rest)) _
        h' in
    let (parsed, counted) =
      parse_each_record-IsParsed protocol limits count (offset + n) (drop n rest) others last'
        following in
    let same : records ≡ r ∷ others = ground arith in
    rw same ((parse_record-IsParsed protocol limits rest r n first, parsed), omega (arith, counted))

parse_records-IsParsed :
    (protocol : MembershipProtocol) (limits : MembershipParseLimits) (message : List ℕ)
    (records : List MembershipRecord)
    → parse_records (format protocol) limits message ≡ ok records
    → All (IsParsed protocol limits) records × (length records ≤ limits.max_records)
unfolding parse_records check_parse_limit
parse_records-IsParsed protocol limits message records h =
    let count = from_be (slice message 6 8) in
    elim (Result-cases (parse_each_record (format protocol) limits count 8 (drop 8 message))) [
      | inl ((found, last), e) ↦
          (let same : records ≡ found = ground arith in
            let allowed : count ≤ limits.max_records = ground arith in
            let (parsed, counted) =
              parse_each_record-IsParsed protocol limits count 8 (drop 8 message) found last e in
            rw same (parsed, omega (arith, counted)))
      | inr (x, e) ↦ absurd (ground arith)
    ]

-- What the records of a report are: those of a report with records, or the one of a legacy message.
abbrev pub Records : MembershipProtocol → MembershipParseLimits → List MembershipRecord → Type 0
Records protocol limits records =
    (All (IsParsed protocol limits) records × (length records ≤ limits.max_records))
    ⊎ IsLegacy protocol records

parse_igmp-Records :
    (limits : MembershipParseLimits) (destination : ℕ) (igmp : List ℕ)
    (records : List MembershipRecord)
    → parse_igmp limits destination igmp ≡ ok records
    → validate_records records ≡ ok tt
    → Records igmpv3 limits records
unfolding parse_igmp
parse_igmp-Records limits destination igmp records h valid =
    let group = v4 (read_ipv4 igmp 4) in
    elim (Bool-cases (byte_at igmp 0 == 0x16)) [
      | inl e ↦ inr (single-IsLegacy igmpv3 group records refl valid (inl (ground arith)))
      | inr e ↦ elim (Bool-cases (byte_at igmp 0 == 0x17)) [
        | inl e' ↦ inr (single-IsLegacy igmpv3 group records refl valid (inr (ground arith)))
        | inr e' ↦ inl (parse_records-IsParsed igmpv3 limits igmp records (ground arith))
      ]
    ]

parse_mld-Records :
    (limits : MembershipParseLimits) (destination : ℕ) (icmp : List ℕ)
    (records : List MembershipRecord)
    → parse_mld limits destination icmp ≡ ok records
    → validate_records records ≡ ok tt
    → Records mldv2 limits records
unfolding parse_mld
parse_mld-Records limits destination icmp records h valid =
    let group = v6 (read_ipv6 icmp 8) in
    elim (Bool-cases (byte_at icmp 0 == 131)) [
      | inl e ↦ inr (single-IsLegacy mldv2 group records refl valid (inl (ground arith)))
      | inr e ↦ elim (Bool-cases (byte_at icmp 0 == 132)) [
        | inl e' ↦ inr (single-IsLegacy mldv2 group records refl valid (inr (ground arith)))
        | inr e' ↦ inl (parse_records-IsParsed mldv2 limits icmp records (ground arith))
      ]
    ]

parse_ipv4-Records :
    (packet : List ℕ) (limits : MembershipParseLimits) (report : MembershipReport)
    → parse_ipv4_membership_report packet limits ≡ ok report
    → Records report.protocol limits report.records
unfolding parse_ipv4_membership_report
parse_ipv4-Records packet limits report h =
    let igmp = slice packet (bit_and (byte_at packet 0) 0x0f * 4) (from_be (slice packet 2 4)) in
    elim (Result-cases (parse_igmp limits (read_ipv4 packet 16) igmp)) [
      | inr (x, e) ↦ absurd (ground arith)
      | inl (records, e) ↦
          (let valid : validate_records records ≡ ok tt = ground arith in
            let same : report ≡ record { protocol = igmpv3; records = records } = ground arith in
            rw same (parse_igmp-Records limits (read_ipv4 packet 16) igmp records e valid))
    ]

parse_ipv6-Records :
    (packet : List ℕ) (limits : MembershipParseLimits) (report : MembershipReport)
    → parse_ipv6_membership_report packet limits ≡ ok report
    → Records report.protocol limits report.records
unfolding parse_ipv6_membership_report
parse_ipv6-Records packet limits report h =
    let total_len = 40 + from_be (slice packet 4 6) in
    elim (Result-cases (hop_by_hop packet total_len)) [
      | inr (x, e) ↦ absurd (ground arith)
      | inl (next, n) ↦
          (let icmp = slice packet next.1 total_len in
            elim (Result-cases (parse_mld limits (read_ipv6 packet 24) icmp)) [
              | inr (x, e) ↦ absurd (ground arith)
              | inl (records, e) ↦
                  (let valid : validate_records records ≡ ok tt = ground arith in
                    let same : report ≡ record { protocol = mldv2; records = records } =
                      ground arith in
                    rw same (parse_mld-Records limits (read_ipv6 packet 24) icmp records e valid))
            ])
    ]

-- A report that parses has records of multicast groups of its protocol's family, with sources of the
-- same family that are unicast addresses, and no more of either than the limits allow; or it has the
-- one record of a legacy message, for such a group and without sources.
pub parse_membership_report-Records :
    (packet : List ℕ) (limits : MembershipParseLimits) (report : MembershipReport)
    → parse_membership_report_with_limits packet limits ≡ ok report
    → Records report.protocol limits report.records
unfolding parse_membership_report_with_limits
parse_membership_report-Records [] limits report h = absurd (ground arith)
parse_membership_report-Records (first ∷ rest) limits report h =
    elim (Bool-cases (first / 16 == 4)) [
      | inl e ↦ parse_ipv4-Records (first ∷ rest) limits report (ground arith)
      | inr e ↦ parse_ipv6-Records (first ∷ rest) limits report (ground arith)
    ]
