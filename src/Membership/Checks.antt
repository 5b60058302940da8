-- ===== src/Membership/Checks.antt =====
-- The checks that the builders and the parsers of membership.rs share, and its record format. The
-- source writes the parts for IGMPv3 and for MLDv2 twice; `RecordFormat` holds what differs.
use Prim.Native.String.{String}
use amt.Prelude.{
  ℕ, ◌+◌, Bool, true, false, not, ◌&&◌, ◌||◌, Option, none, some, List, [], ◌∷◌, Result, ok, err,
  ◌>>=◌, if◌then◌else◌, length, ltb, leb, ◌==◌,
}
use amt.Prelude.Bytes.{slice, from_be}
use amt.Address.{IpAddr, v4, v6, same_family, is_multicast, is_unspecified, is_broadcast}
use amt.Ip.{is_amt_forwardable_group}
use amt.Protocol.{MembershipProtocol, igmpv3, mldv2}
use amt.Membership.{
  MembershipRecord, MembershipRecordKind, mode_is_include, mode_is_exclude, change_to_include,
  change_to_exclude, allow_new_sources, block_old_sources, legacy_report, legacy_leave,
  MembershipParseError, MembershipBuildError,
}

pub record RecordFormat : Type 0 where
  pub address_len : ℕ
  pub address : ℕ → IpAddr
  pub report : String
  pub records : String
  pub one_record : String

abbrev pub igmpv3_format : RecordFormat
igmpv3_format = record {
  address_len = 4;
  address = λ a. v4 a;
  report = "IGMPv3 Membership Report";
  records = "IGMPv3 group records";
  one_record = "IGMPv3 group record";
}

abbrev pub mldv2_format : RecordFormat
mldv2_format = record {
  address_len = 16;
  address = λ a. v6 a;
  report = "MLDv2 Listener Report";
  records = "MLDv2 multicast address records";
  one_record = "MLDv2 multicast address record";
}

-- A record without its sources: 8 bytes, or 20.
abbrev pub record_header_len : RecordFormat → ℕ
record_header_len f = 4 + f.address_len

unfoldable pub record_kind : ℕ → Result MembershipParseError MembershipRecordKind
record_kind value =
    if value == 1
    then ok mode_is_include
    else if value == 2
    then ok mode_is_exclude
    else if value == 3
    then ok change_to_include
    else if value == 4
    then ok change_to_exclude
    else if value == 5
    then ok allow_new_sources
    else if value == 6
    then ok block_old_sources
    else err (MembershipParseError.unknown_record_type value)

unfoldable pub encode_record_kind : MembershipRecordKind → Result MembershipBuildError ℕ
encode_record_kind mode_is_include = ok 1
encode_record_kind mode_is_exclude = ok 2
encode_record_kind change_to_include = ok 3
encode_record_kind change_to_exclude = ok 4
encode_record_kind allow_new_sources = ok 5
encode_record_kind block_old_sources = ok 6
encode_record_kind legacy_report = err (MembershipBuildError.unsupported_record_kind legacy_report)
encode_record_kind legacy_leave = err (MembershipBuildError.unsupported_record_kind legacy_leave)

abbrev pub legacy_record : MembershipRecordKind → IpAddr → MembershipRecord
legacy_record kind group = record { kind = kind; group = group; sources = [] }

unfoldable pub is_valid_source : IpAddr → Bool
is_valid_source (v4 source) =
    not (is_unspecified (v4 source))
    && (not (is_multicast (v4 source)) && not (is_broadcast (v4 source)))
is_valid_source (v6 source) = not (is_unspecified (v6 source)) && not (is_multicast (v6 source))

-- `any(|source| !same_family(group, *source) || !is_valid_source(*source))`.
unfoldable pub any_bad_source : IpAddr → List IpAddr → Bool
unfolding is_valid_source
any_bad_source group [] = false
any_bad_source group (source ∷ rest) =
    (not (same_family group source) || not (is_valid_source source)) || any_bad_source group rest

-- `find(|source| !is_valid_source(*source))`.
unfoldable pub find_invalid_source : List IpAddr → Option IpAddr
unfolding is_valid_source
find_invalid_source [] = none
find_invalid_source (source ∷ rest) =
    let found = find_invalid_source rest in
    if not (is_valid_source source) then some source else found

abbrev pub bad_source_error : Option IpAddr → MembershipParseError
bad_source_error (some source) = MembershipParseError.invalid_source_address source
bad_source_error none = MembershipParseError.mixed_address_families

unfoldable pub validate_record : IpAddr → List IpAddr → Result MembershipParseError (Unit {0})
validate_record group sources =
    if not (is_multicast group)
    then err (MembershipParseError.invalid_multicast_group group)
    else if any_bad_source group sources
    then err (bad_source_error (find_invalid_source sources))
    else ok tt

unfoldable pub validate_records : List MembershipRecord → Result MembershipParseError (Unit {0})
validate_records [] = ok tt
validate_records (r ∷ rest) = validate_record r.group r.sources >>= λ _. validate_records rest

abbrev pub family_matches : MembershipProtocol → IpAddr → Bool
family_matches igmpv3 (v4 group) = true
family_matches mldv2 (v6 group) = true
family_matches _ _ = false

-- One round of the loop of `validate_build_records`.
unfoldable pub validate_build_record :
    MembershipProtocol → MembershipRecord → Result MembershipBuildError (Unit {0})
validate_build_record protocol r = encode_record_kind r.kind >>= λ _.
    if not (is_amt_forwardable_group r.group)
    then err (MembershipBuildError.invalid_multicast_group r.group)
    else if not (family_matches protocol r.group)
    then err (MembershipBuildError.protocol_address_family_mismatch protocol r.group)
    else if ltb 0xffff (length r.sources)
    then err (MembershipBuildError.too_many_sources (length r.sources))
    else if any_bad_source r.group r.sources
    then err MembershipBuildError.mixed_address_families
    else ok tt

unfoldable pub validate_each_build_record :
    MembershipProtocol → List MembershipRecord → Result MembershipBuildError (Unit {0})
validate_each_build_record protocol [] = ok tt
validate_each_build_record protocol (r ∷ rest) =
    validate_build_record protocol r >>= λ _. validate_each_build_record protocol rest

unfoldable pub validate_build_records :
    MembershipProtocol → List MembershipRecord → Result MembershipBuildError (Unit {0})
validate_build_records protocol records =
    if length records == 0
    then err MembershipBuildError.empty_report
    else if ltb 0xffff (length records)
    then err (MembershipBuildError.too_many_records (length records))
    else validate_each_build_record protocol records

unfoldable pub check_parse_limit : String → ℕ → ℕ → Result MembershipParseError (Unit {0})
check_parse_limit resource requested limit =
    if leb requested limit
    then ok tt
    else err (MembershipParseError.resource_limit resource requested limit)

unfoldable pub require_len : String → List ℕ → ℕ → Result MembershipParseError (Unit {0})
require_len context bytes expected =
    if ltb (length bytes) expected
    then err (MembershipParseError.truncated context expected (length bytes))
    else ok tt

unfoldable pub require_exact_len : String → List ℕ → ℕ → Result MembershipParseError (Unit {0})
require_exact_len context bytes expected =
    if length bytes == expected
    then ok tt
    else err (MembershipParseError.invalid_message_length context expected (length bytes))

abbrev pub read_ipv4 : List ℕ → ℕ → ℕ
read_ipv4 bytes offset = from_be (slice bytes offset (offset + 4))

abbrev pub read_ipv6 : List ℕ → ℕ → ℕ
read_ipv6 bytes offset = from_be (slice bytes offset (offset + 16))
