-- ===== src/Driad/Answers.antt =====
-- The answers of a response of DNS in driad.rs.
use Prim.Native.String.{String}
use amt.Prelude.{
  ℕ, zero, suc, ◌+◌, ◌-◌, not, ◌&&◌, Option, none, some, List, [], ◌∷◌, ◌++◌, Result, ok, err,
  guard, ◌>>=◌, ◌>>◌, if◌then◌else◌, length, take, drop, leb, ◌==◌,
}
use amt.Prelude.Bytes.{slice, from_be}
use amt.Address.{IpAddr, v4, v6}
use amt.Driad.{AmtRelayRecord, DnsAmtRelayResponse, DnsAddressResponse, DriadError, truncated}
use amt.Driad.Names.{trim_dots, eq_ignore_ascii_case, dns_name_eq, parse_dns_name}
use amt.Driad.Response.{read_u16, read_u32, parse_amtrelay_rdata, validate_dns_response}

-- The name behind an alias of a whole subtree.
unfoldable pub apply_dname : List ℕ → List ℕ → List ℕ → Option (List ℕ)
apply_dname query_name owner_name target_name =
    let query = trim_dots query_name in
    let owner = trim_dots owner_name in
    let target = trim_dots target_name in
    let suffix = 46 ∷ owner in
    let prefix_len = length query - length suffix in
    if eq_ignore_ascii_case query owner
    then some target
    else if leb (length suffix) (length query)
        && eq_ignore_ascii_case (drop prefix_len query) suffix
    then some (take prefix_len query ++ (46 ∷ target))
    else none

-- What both loops read of an answer, whose data runs from `first` to `last`.
pub record Answer : Type 0 where
  pub owner : List ℕ
  pub rrtype : ℕ
  pub class : ℕ
  pub ttl : ℕ
  pub first : ℕ
  pub last : ℕ

unfoldable pub read_answer : String → String → List ℕ → ℕ → Result DriadError Answer
read_answer header rdata response offset = do
  (owner, next) ← parse_dns_name response offset
  guard (leb (next + 10) (length response)) (truncated header)
  rrtype ← read_u16 response next
  class ← read_u16 response (next + 2)
  ttl ← read_u32 response (next + 4)
  rdlen ← read_u16 response (next + 8)
  guard (leb (next + 10 + rdlen) (length response)) (truncated rdata)
  ok (record {
    owner = owner;
    rrtype = rrtype;
    class = class;
    ttl = ttl;
    first = next + 10;
    last = next + 10 + rdlen;
  })

abbrev pub push_record :
    ℕ → Result DriadError AmtRelayRecord → DnsAmtRelayResponse → DnsAmtRelayResponse
push_record ttl (ok relay) r = record r {
  records = r.records ++ (record { value = relay; ttl = ttl } ∷ []);
}
push_record ttl (err e) r = r

abbrev pub push_alias : ℕ → Option (List ℕ) → DnsAmtRelayResponse → DnsAmtRelayResponse
push_alias ttl (some name) r = record r {
  aliases = r.aliases ++ (record { value = name; ttl = ttl } ∷ []);
}
push_alias ttl none r = r

unfoldable pub relay_answer :
    List ℕ → List ℕ → Answer → DnsAmtRelayResponse → Result DriadError DnsAmtRelayResponse
unfolding apply_dname parse_amtrelay_rdata
relay_answer query_name response a r =
    if a.class == 1 && (a.rrtype == 260 && dns_name_eq a.owner query_name)
    then ok (push_record a.ttl (parse_amtrelay_rdata (slice response a.first a.last)) r)
    else if a.class == 1 && (a.rrtype == 5 && dns_name_eq a.owner query_name)
    then (parse_dns_name response a.first >>= λ (name, consumed).
        ok (if consumed == a.last then push_alias a.ttl (some name) r else r))
    else if a.class == 1 && a.rrtype == 39
    then (parse_dns_name response a.first >>= λ (target, consumed). ok (
        if consumed == a.last
        then push_alias a.ttl (apply_dname query_name a.owner target) r
        else r))
    else ok r

unfoldable pub relay_answers :
    ℕ → List ℕ → List ℕ → ℕ → DnsAmtRelayResponse → Result DriadError DnsAmtRelayResponse
unfolding read_answer relay_answer
relay_answers zero query_name response offset r = ok r
relay_answers (suc n) query_name response offset r =
    read_answer "answer" "answer RDATA" response offset >>= λ a.
    relay_answer query_name response a r >>= λ r'. relay_answers n query_name response a.last r'

unfoldable pub parse_dns_response : ℕ → List ℕ → List ℕ → Result DriadError DnsAmtRelayResponse
unfolding relay_answers validate_dns_response
parse_dns_response expected_id query_name response =
    validate_dns_response expected_id query_name 260 response >>= λ (ancount, offset).
    relay_answers ancount query_name response offset (record { records = []; aliases = [] })

abbrev pub push_address : ℕ → IpAddr → DnsAddressResponse → DnsAddressResponse
push_address ttl address r = record r {
  addresses = r.addresses ++ (record { value = address; ttl = ttl } ∷ []);
}

unfoldable pub address_answer :
    List ℕ → ℕ → List ℕ → Answer → DnsAddressResponse → Result DriadError DnsAddressResponse
address_answer query_name query_type response a r =
    let rdata = slice response a.first a.last in
    if not (a.class == 1 && dns_name_eq a.owner query_name)
    then ok r
    else if a.rrtype == 1 && (a.last - a.first == 4 && query_type == 1)
    then ok (push_address a.ttl (v4 (from_be rdata)) r)
    else if a.rrtype == 28 && (a.last - a.first == 16 && query_type == 28)
    then ok (push_address a.ttl (v6 (from_be rdata)) r)
    else if a.rrtype == 5
    then (parse_dns_name response a.first >>= λ (name, consumed). ok (
        if consumed == a.last
        then record r { alias = some (record { value = name; ttl = a.ttl }) }
        else r))
    else ok r

unfoldable pub address_answers :
    ℕ → List ℕ → ℕ → List ℕ → ℕ → DnsAddressResponse → Result DriadError DnsAddressResponse
unfolding read_answer address_answer
address_answers zero query_name query_type response offset r = ok r
address_answers (suc n) query_name query_type response offset r =
    read_answer "address answer" "address answer RDATA" response offset >>= λ a.
    address_answer query_name query_type response a r >>= λ r'.
    address_answers n query_name query_type response a.last r'

unfoldable pub parse_address_response :
    ℕ → List ℕ → ℕ → List ℕ → Result DriadError DnsAddressResponse
unfolding address_answers validate_dns_response
parse_address_response expected_id query_name query_type response =
    validate_dns_response expected_id query_name query_type response >>= λ (ancount, offset).
    address_answers ancount query_name query_type response offset
      (record { addresses = []; alias = none })
