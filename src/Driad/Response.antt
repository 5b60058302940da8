-- ===== src/Driad/Response.antt =====
-- The messages of DNS in driad.rs: the query, the check of a response's front, and its answers.
use Prim.Native.Nat.{bit_and}
use amt.Prelude.{
  ℕ, zero, suc, ◌+◌, ◌/◌, ◌%◌, Bool, true, false, not, ◌&&◌, ◌||◌, none, some, List, [], ◌∷◌, ◌++◌,
  Result, ok, err, guard, ◌>>=◌, ◌>>◌, if◌then◌else◌, length, drop, get_elem?, ltb, leb, ◌==◌,
}
use amt.Prelude.Bytes.{byte_at, slice, from_be, to_be}
use amt.Driad.{
  AmtRelayTarget, AmtRelayRecord, DriadError, truncated, invalid_response_id, dns_response_code,
  invalid_dns_flags, invalid_question, invalid_relay_type, invalid_relay_length, invalid_relay_name,
}
use amt.Driad.Names.{join_dots, is_utf8, dns_name_eq, put_dns_name, parse_dns_name}

unfoldable pub read_u16 : List ℕ → ℕ → Result DriadError ℕ
read_u16 input offset =
    if ltb (length input) (offset + 2)
    then err (truncated "u16")
    else ok (from_be (slice input offset (offset + 2)))

unfoldable pub read_u32 : List ℕ → ℕ → Result DriadError ℕ
read_u32 input offset =
    if ltb (length input) (offset + 4)
    then err (truncated "u32")
    else ok (from_be (slice input offset (offset + 4)))

-- The name in the record of a relay, from the cursor on; it may hold no pointer.
unfoldable pub uncompressed_labels : ℕ → List ℕ → ℕ → List (List ℕ) → Result DriadError (List ℕ × ℕ)
uncompressed_labels zero input cursor labels = err invalid_relay_name
uncompressed_labels (suc rounds) input cursor labels = elim (get_elem? input cursor) [
  | none ↦ err (truncated "AMTRELAY domain name")
  | some len ↦ elim (len / 64 == 0) [
    | false ↦ err invalid_relay_name
    | true ↦ elim (len == 0) [
      | true ↦
          (if ltb 255 (cursor + 1)
            then err invalid_relay_name
            else ok (join_dots labels, cursor + 1))
      | false ↦ elim (leb (cursor + 1 + len) (length input)) [
        | false ↦ err (truncated "AMTRELAY domain label")
        | true ↦
            elim (is_utf8 (slice input (cursor + 1) (cursor + 1 + len))
              && ltb (cursor + 1 + len) 255) [
                | false ↦ err invalid_relay_name
                | true ↦
                    uncompressed_labels rounds input (cursor + 1 + len)
                      (labels ++ (slice input (cursor + 1) (cursor + 1 + len) ∷ []))
              ]
      ]
    ]
  ]
]

unfoldable pub parse_uncompressed_dns_name : List ℕ → Result DriadError (List ℕ × ℕ)
unfolding uncompressed_labels
parse_uncompressed_dns_name input = uncompressed_labels 128 input 0 []

abbrev pub require_relay_len : ℕ → List ℕ → ℕ → Result DriadError (Unit {0})
require_relay_len relay_type relay expected =
    guard (length relay == expected) (invalid_relay_length relay_type expected (length relay))

abbrev pub parse_target : ℕ → List ℕ → Result DriadError AmtRelayTarget
parse_target relay_type relay =
    if relay_type == 0
    then (require_relay_len relay_type relay 0 >> ok AmtRelayTarget.no_relay)
    else if relay_type == 1
    then (require_relay_len relay_type relay 4 >> ok (AmtRelayTarget.ipv4 (from_be relay)))
    else if relay_type == 2
    then (require_relay_len relay_type relay 16 >> ok (AmtRelayTarget.ipv6 (from_be relay)))
    else if relay_type == 3
    then (parse_uncompressed_dns_name relay >>= λ (name, consumed).
        if not (consumed == length relay) || length name == 0
        then err invalid_relay_name
        else ok (AmtRelayTarget.name name))
    else err (invalid_relay_type relay_type)

-- The highest bit of the second byte, and the other seven.
unfoldable pub parse_amtrelay_rdata : List ℕ → Result DriadError AmtRelayRecord
parse_amtrelay_rdata rdata = do
  guard (leb 2 (length rdata)) (truncated "AMTRELAY RDATA")
  target ← parse_target (byte_at rdata 1 % 128) (drop 2 rdata)
  ok (record {
    precedence = byte_at rdata 0;
    discovery_optional = leb 128 (byte_at rdata 1);
    target = target;
  })

abbrev pub question : List ℕ → ℕ → List ℕ
question name qtype = name ++ (to_be 2 qtype ++ (0 ∷ 1 ∷ []))

unfoldable pub build_dns_query : ℕ → List ℕ → ℕ → Result DriadError (List ℕ)
build_dns_query id name qtype = put_dns_name name >>= λ bytes.
    ok (to_be 2 id ++ (1 ∷ 0 ∷ 0 ∷ 1 ∷ 0 ∷ 0 ∷ 0 ∷ 0 ∷ 0 ∷ 0 ∷ question bytes qtype))

-- Not a response, another operation, truncated, or with the reserved bit.
abbrev pub has_invalid_flags : ℕ → Bool
has_invalid_flags flags =
    bit_and flags 0x8000 == 0
    || (not (bit_and flags 0x7800 == 0)
        || (not (bit_and flags 0x0200 == 0) || not (bit_and flags 0x0040 == 0)))

abbrev pub check_question : List ℕ → ℕ → List ℕ → List ℕ × ℕ → Result DriadError (ℕ × ℕ)
check_question query_name query_type response (actual_name, next) = do
  guard (not (ltb (length response) (next + 4) || not (dns_name_eq actual_name query_name)))
      invalid_question
  actual_type ← read_u16 response next
  guard (actual_type == query_type) invalid_question
  class ← read_u16 response (next + 2)
  guard (class == 1) invalid_question
  ancount ← read_u16 response 6
  ok (ancount, next + 4)

unfoldable pub validate_dns_response : ℕ → List ℕ → ℕ → List ℕ → Result DriadError (ℕ × ℕ)
unfolding read_u16 dns_name_eq
validate_dns_response expected_id query_name query_type response = do
  guard (leb 12 (length response)) (truncated "DNS header")
  actual_id ← read_u16 response 0
  guard (actual_id == expected_id) (invalid_response_id expected_id actual_id)
  flags ← read_u16 response 2
  guard (not (has_invalid_flags flags)) (invalid_dns_flags flags)
  guard (bit_and flags 0x000f == 0) (dns_response_code (bit_and flags 0x000f))
  questions ← read_u16 response 4
  guard (questions == 1) invalid_question
  name ← parse_dns_name response 12
  check_question query_name query_type response name
