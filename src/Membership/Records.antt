-- ===== src/Membership/Records.antt =====
-- A record that is written parses back, in front of any bytes.
use amt.Prelude.{
  ℕ, ◌+◌, ◌*◌, ◌^◌, ◌≤◌, ◌<◌, ◌≡◌, refl, sym, ap, ◌∙◌, arith, List, [], ◌∷◌, ◌++◌, ok, >>=-eq-ok,
  length, length-append, take, drop, take-append, drop-append, All, All-append,
}
use mathlib.Core.List.{append_assoc}
use amt.Prelude.Bytes.{IsByte, from_be, to_be, length-to_be, from_be-to_be, to_be-IsByte}
use amt.Address.{IpAddr, v4, v6, octets}
use amt.Membership.{MembershipRecord, MembershipRecordKind, MembershipParseLimits}
use amt.Membership.Checks.{
  RecordFormat, record_header_len, record_kind, encode_record_kind, validate_record,
  check_parse_limit, require_len,
}
use amt.Membership.Build.{
  source_bytes, record_bytes, encode_records, records_len, checked_mul_sources,
}
use amt.Membership.Parse.{read_sources, parse_record, parse_each_record}

-- An address of the format's family, within its bits.
pub record InFormat (f : RecordFormat) (ip : IpAddr) : Type 0 where
  pub number : ℕ
  pub is_address : ip ≡ f.address number
  pub is_octets : octets ip ≡ to_be f.address_len number
  pub fits : number < 256 ^ f.address_len

take-octets :
    (f : RecordFormat) (ip : IpAddr) (tail : List ℕ)
    → InFormat f ip
    → take f.address_len (octets ip ++ tail) ≡ octets ip
take-octets f ip tail h = rw h.is_octets (
    ap (λ n. take n (to_be f.address_len h.number ++ tail))
      (sym (length-to_be f.address_len h.number))
    ∙ take-append (to_be f.address_len h.number) tail)

drop-octets :
    (f : RecordFormat) (ip : IpAddr) (tail : List ℕ)
    → InFormat f ip
    → drop f.address_len (octets ip ++ tail) ≡ tail
drop-octets f ip tail h = rw h.is_octets (
    ap (λ n. drop n (to_be f.address_len h.number ++ tail))
      (sym (length-to_be f.address_len h.number))
    ∙ drop-append (to_be f.address_len h.number) tail)

address-octets :
    (f : RecordFormat) (ip : IpAddr) → InFormat f ip → f.address (from_be (octets ip)) ≡ ip
address-octets f ip h =
    ap f.address (ap from_be h.is_octets ∙ from_be-to_be f.address_len h.number h.fits)
    ∙ sym h.is_address

length-octets :
    (f : RecordFormat) (ip : IpAddr) → InFormat f ip → length (octets ip) ≡ f.address_len
length-octets f ip h = ap length h.is_octets ∙ length-to_be f.address_len h.number

pub octets-IsByte : (ip : IpAddr) → All IsByte (octets ip)
octets-IsByte (v4 a) = to_be-IsByte 4 a
octets-IsByte (v6 a) = to_be-IsByte 16 a

pub length-source_bytes :
    (f : RecordFormat) (sources : List IpAddr)
    → All (InFormat f) sources
    → length (source_bytes sources) ≡ length sources * f.address_len
unfolding source_bytes
length-source_bytes f [] h = omega arith
length-source_bytes f (source ∷ rest) h = grind (
  arith,
  length-append (octets source) (source_bytes rest),
  length-octets f source h.0,
  length-source_bytes f rest h.1,
)

read_sources-source_bytes :
    (f : RecordFormat) (sources : List IpAddr) (tail : List ℕ)
    → All (InFormat f) sources
    → read_sources f (length sources) (source_bytes sources ++ tail) ≡ sources
unfolding source_bytes read_sources
read_sources-source_bytes f [] tail h = refl
read_sources-source_bytes f (source ∷ rest) tail h =
    rw
      (
        append_assoc,
        take-octets f source (source_bytes rest ++ tail) h.0,
        drop-octets f source (source_bytes rest ++ tail) h.0,
        address-octets f source h.0,
        read_sources-source_bytes f rest tail h.1,
      )
      refl

-- What the format and the limits ask of a record.
pub record IsWritable (f : RecordFormat) (limits : MembershipParseLimits) (r : MembershipRecord)
    : Type 0 where
  pub kind : ℕ
  pub encoded : encode_record_kind r.kind ≡ ok kind
  pub group : InFormat f r.group
  pub sources : All (InFormat f) r.sources
  pub counted : length r.sources < 2 ^ 16
  pub limited : length r.sources ≤ limits.max_sources_per_record
  pub valid : validate_record r.group r.sources ≡ ok tt

encode_record_kind-record_kind :
    (k : MembershipRecordKind) (n : ℕ)
    → encode_record_kind k ≡ ok n
    → (record_kind n ≡ ok k) × IsByte n
unfolding encode_record_kind record_kind
encode_record_kind-record_kind k n h = ground arith

length-record_bytes :
    (f : RecordFormat) (kind : ℕ) (r : MembershipRecord)
    → InFormat f r.group
    → All (InFormat f) r.sources
    → length (record_bytes kind r) ≡ record_header_len f + length r.sources * f.address_len
unfolding record_bytes
length-record_bytes f kind r g s = omega (
  arith,
  length-append (octets r.group) (source_bytes r.sources),
  length-octets f r.group g,
  length-source_bytes f r.sources s,
)

parse_record-record_bytes :
    (f : RecordFormat) (limits : MembershipParseLimits) (r : MembershipRecord) (tail : List ℕ)
    (w : IsWritable f limits r)
    → parse_record f limits (record_bytes w.kind r ++ tail) ≡ ok (r, length (record_bytes w.kind r))
unfolding parse_record record_bytes require_len check_parse_limit
parse_record-record_bytes f limits r tail w =
    let body = source_bytes r.sources ++ tail in
    let (read, small) = encode_record_kind-record_kind r.kind w.kind w.encoded in
    rw
      (
        append_assoc,
        read,
        from_be-to_be 2 (length r.sources) w.counted,
        take-octets f r.group body w.group,
        drop-octets f r.group body w.group,
        address-octets f r.group w.group,
        read_sources-source_bytes f r.sources tail w.sources,
        w.valid,
      )
      (ground (
        arith,
        length-append (octets r.group) body,
        length-append (source_bytes r.sources) tail,
        length-append (octets r.group) (source_bytes r.sources),
        length-octets f r.group w.group,
        length-source_bytes f r.sources w.sources,
      ))

-- The loop over records reads back what `encode_records` wrote.
pub parse_each_record-encode_records :
    (f : RecordFormat) (limits : MembershipParseLimits) (records : List MembershipRecord)
    (offset : ℕ) (bytes tail : List ℕ)
    → All (IsWritable f limits) records
    → encode_records records ≡ ok bytes
    → parse_each_record f limits (length records) offset (bytes ++ tail)
      ≡ ok (records, offset + length bytes)
unfolding parse_each_record encode_records
parse_each_record-encode_records f limits [] offset bytes tail w e =
    let same : bytes ≡ [] = cc in rw same (ap (λ (n : ℕ). ok ([], n)) (omega arith))
parse_each_record-encode_records f limits (r ∷ rest) offset bytes tail w e =
    let (kind, encoded, e') = >>=-eq-ok (encode_record_kind r.kind) _ e in
    let (following, encoded', last) = >>=-eq-ok (encode_records rest) _ e' in
    let same : bytes ≡ record_bytes w.0.kind r ++ following = cc (w.0.encoded) in
    rw
      (
        same,
        append_assoc,
        parse_record-record_bytes f limits r (following ++ tail) w.0,
        drop-append (record_bytes w.0.kind r) (following ++ tail),
        parse_each_record-encode_records f limits rest (offset + length (record_bytes w.0.kind r))
            following tail w.1 encoded',
      )
      (ap (λ (n : ℕ). ok (r ∷ rest, n))
        (omega (arith, length-append (record_bytes w.0.kind r) following)))

source_bytes-IsByte : (sources : List IpAddr) → All IsByte (source_bytes sources)
unfolding source_bytes
source_bytes-IsByte [] = tt
source_bytes-IsByte (s ∷ rest) =
    All-append IsByte (octets s) (source_bytes rest) (octets-IsByte s) (source_bytes-IsByte rest)

record_bytes-IsByte :
    (kind : ℕ) (r : MembershipRecord) → IsByte kind → All IsByte (record_bytes kind r)
unfolding record_bytes
record_bytes-IsByte kind r k = (
  k,
  (
    omega arith,
    All-append IsByte (to_be 2 (length r.sources)) (octets r.group ++ source_bytes r.sources)
        (to_be-IsByte 2 (length r.sources))
        (All-append IsByte (octets r.group) (source_bytes r.sources) (octets-IsByte r.group)
          (source_bytes-IsByte r.sources)),
  ),
)

pub encode_records-IsByte :
    (records : List MembershipRecord) (bytes : List ℕ)
    → encode_records records ≡ ok bytes
    → All IsByte bytes
unfolding encode_records
encode_records-IsByte [] bytes e = let same : bytes ≡ [] = cc in rw same tt
encode_records-IsByte (r ∷ rest) bytes e =
    let (kind, encoded, e') = >>=-eq-ok (encode_record_kind r.kind) _ e in
    let (following, encoded', last) = >>=-eq-ok (encode_records rest) _ e' in
    let same : bytes ≡ record_bytes kind r ++ following = cc in
    rw same (
      All-append IsByte (record_bytes kind r) following
        (record_bytes-IsByte kind r (encode_record_kind-record_kind r.kind kind encoded).1)
        (encode_records-IsByte rest following encoded'))

-- The length that is announced is the one that is written.
pub records_len-encode_records :
    (f : RecordFormat) (limits : MembershipParseLimits) (records : List MembershipRecord)
    (start len : ℕ) (bytes : List ℕ)
    → All (IsWritable f limits) records
    → records_len f start records ≡ ok len
    → encode_records records ≡ ok bytes
    → len ≡ start + length bytes
unfolding encode_records records_len checked_mul_sources
records_len-encode_records f limits [] start len bytes w h e = ground arith
records_len-encode_records f limits (r ∷ rest) start len bytes w h e =
    let (kind, encoded, e') = >>=-eq-ok (encode_record_kind r.kind) _ e in
    let (following, encoded', last) = >>=-eq-ok (encode_records rest) _ e' in
    let same : bytes ≡ record_bytes kind r ++ following = cc in
    let (source_len, counted, h') =
      >>=-eq-ok (checked_mul_sources (length r.sources) f.address_len) _ h in
    let total : source_len ≡ length r.sources * f.address_len = ground arith in
    omega (
      arith,
      total,
      ap length same,
      length-append (record_bytes kind r) following,
      length-record_bytes f kind r w.0.group w.0.sources,
      records_len-encode_records f limits rest (start + (record_header_len f + source_len)) len
          following w.1 h' encoded',
    )

-- Each record takes at least its header.
pub length-encode_records :
    (f : RecordFormat) (limits : MembershipParseLimits) (records : List MembershipRecord)
    (bytes : List ℕ)
    → All (IsWritable f limits) records
    → encode_records records ≡ ok bytes
    → length records * record_header_len f ≤ length bytes
unfolding encode_records
length-encode_records f limits [] bytes w e = omega arith
length-encode_records f limits (r ∷ rest) bytes w e =
    let (kind, encoded, e') = >>=-eq-ok (encode_record_kind r.kind) _ e in
    let (following, encoded', last) = >>=-eq-ok (encode_records rest) _ e' in
    let same : bytes ≡ record_bytes kind r ++ following = cc in
    grind (
      arith,
      ap length same,
      length-append (record_bytes kind r) following,
      length-record_bytes f kind r w.0.group w.0.sources,
      length-encode_records f limits rest following w.1 encoded',
    )
