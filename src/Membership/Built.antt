-- ===== src/Membership/Built.antt =====
-- What a report is that the builders accept.
use amt.Prelude.{
  ℕ, ◌^◌, ◌≤◌, ◌<◌, ◌≡◌, refl, arith, true, false, List, [], ◌∷◌, ok, >>=-eq-ok, length, All,
}
use amt.Address.{IpAddr, v4, v6, IsIp, same_family, is_multicast}
use amt.Ip.{is_amt_forwardable_group}
use amt.Protocol.{MembershipProtocol, igmpv3, mldv2}
use amt.Membership.{MembershipRecord, MembershipParseLimits}
use amt.Membership.Checks.{
  RecordFormat, igmpv3_format, mldv2_format, encode_record_kind, any_bad_source, family_matches,
  validate_record, validate_records, validate_build_record, validate_each_build_record,
  validate_build_records,
}
use amt.Membership.Records.{InFormat, IsWritable}

abbrev pub format : MembershipProtocol → RecordFormat
format igmpv3 = igmpv3_format
format mldv2 = mldv2_format

-- What the Rust type of a record guarantees, and what the limits of a parser ask of it.
abbrev pub IsRecord : MembershipParseLimits → MembershipRecord → Type 0
IsRecord limits r =
    IsIp r.group × All IsIp r.sources × (length r.sources ≤ limits.max_sources_per_record)

family_matches-InFormat :
    (protocol : MembershipProtocol) (ip : IpAddr)
    → family_matches protocol ip ≡ true
    → IsIp ip
    → InFormat (format protocol) ip
family_matches-InFormat igmpv3 (v4 a) m h = record {
  number = a;
  is_address = refl;
  is_octets = refl;
  fits = h;
}
family_matches-InFormat igmpv3 (v6 a) m h = cc
family_matches-InFormat mldv2 (v4 a) m h = cc
family_matches-InFormat mldv2 (v6 a) m h = record {
  number = a;
  is_address = refl;
  is_octets = refl;
  fits = h;
}

same_family-family_matches :
    (protocol : MembershipProtocol) (group source : IpAddr)
    → family_matches protocol group ≡ true
    → same_family group source ≡ true
    → family_matches protocol source ≡ true
same_family-family_matches protocol group source m h = ground arith

sources-InFormat :
    (protocol : MembershipProtocol) (group : IpAddr) (sources : List IpAddr)
    → family_matches protocol group ≡ true
    → any_bad_source group sources ≡ false
    → All IsIp sources
    → All (InFormat (format protocol)) sources
unfolding any_bad_source
sources-InFormat protocol group [] m good h = tt
sources-InFormat protocol group (source ∷ rest) m good h = (
  family_matches-InFormat protocol source
      (same_family-family_matches protocol group source m (ground arith)) h.0,
  sources-InFormat protocol group rest m (ground arith) h.1,
)

is_amt_forwardable_group-is_multicast :
    (group : IpAddr) → is_amt_forwardable_group group ≡ true → is_multicast group ≡ true
unfolding is_amt_forwardable_group
is_amt_forwardable_group-is_multicast (v4 g) h = ground arith
is_amt_forwardable_group-is_multicast (v6 g) h = ground arith

validate_build_record-ok :
    (protocol : MembershipProtocol) (r : MembershipRecord)
    → validate_build_record protocol r ≡ ok tt
    → (kind : ℕ) × (encode_record_kind r.kind ≡ ok kind)
      × (is_amt_forwardable_group r.group ≡ true)
      × (family_matches protocol r.group ≡ true)
      × (length r.sources < 2 ^ 16)
      × (any_bad_source r.group r.sources ≡ false)
unfolding validate_build_record
validate_build_record-ok protocol r h =
    let (kind, encoded, rest) = >>=-eq-ok (encode_record_kind r.kind) _ h in
    (kind, encoded, ground arith, ground arith, ground arith, ground arith)

pub validate_build_record-IsWritable :
    (protocol : MembershipProtocol) (limits : MembershipParseLimits) (r : MembershipRecord)
    → validate_build_record protocol r ≡ ok tt
    → IsRecord limits r
    → IsWritable (format protocol) limits r
unfolding validate_record
validate_build_record-IsWritable protocol limits r h (g, s, l) =
    let (kind, encoded, forwardable, family, counted, good) =
      validate_build_record-ok protocol r h in
    record {
      kind = kind;
      encoded = encoded;
      group = family_matches-InFormat protocol r.group family g;
      sources = sources-InFormat protocol r.group r.sources family good s;
      counted = counted;
      limited = l;
      valid = rw (is_amt_forwardable_group-is_multicast r.group forwardable, good) refl;
    }

validate_each-IsWritable :
    (protocol : MembershipProtocol) (limits : MembershipParseLimits)
    (records : List MembershipRecord)
    → validate_each_build_record protocol records ≡ ok tt
    → All (IsRecord limits) records
    → All (IsWritable (format protocol) limits) records
unfolding validate_each_build_record
validate_each-IsWritable protocol limits [] h a = tt
validate_each-IsWritable protocol limits (r ∷ rest) h a =
    let (u, first, others) = >>=-eq-ok (validate_build_record protocol r) _ h in
    (
      validate_build_record-IsWritable protocol limits r first a.0,
      validate_each-IsWritable protocol limits rest others a.1,
    )

-- The records that the builders accept, of the Rust types and within the limits, are writable.
pub validate_build_records-IsWritable :
    (protocol : MembershipProtocol) (limits : MembershipParseLimits)
    (records : List MembershipRecord)
    → validate_build_records protocol records ≡ ok tt
    → All (IsRecord limits) records
    → All (IsWritable (format protocol) limits) records × (length records < 2 ^ 16)
unfolding validate_build_records
validate_build_records-IsWritable protocol limits records h a =
    (validate_each-IsWritable protocol limits records (ground arith) a, ground arith)

-- The parser's second look at the records finds nothing.
pub IsWritable-validate_records :
    (f : RecordFormat) (limits : MembershipParseLimits) (records : List MembershipRecord)
    → All (IsWritable f limits) records
    → validate_records records ≡ ok tt
unfolding validate_records
IsWritable-validate_records f limits [] a = refl
IsWritable-validate_records f limits (r ∷ rest) a =
    rw (a.0.valid) (IsWritable-validate_records f limits rest a.1)
