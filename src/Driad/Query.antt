-- ===== src/Driad/Query.antt =====
-- A name that driad.rs writes into a message is read back from it, and a response to a query passes
-- the check of its front.
use amt.Prelude.{
  ℕ, ◌+◌, ◌<◌, ◌≡◌, refl, sym, ap, arith, true, List, [], ◌∷◌, ◌++◌, ok, length, length-append, All,
  ltb, ◌==◌, Bool-cases, inl, inr, refuse-eq-ok, >>=-eq-ok,
}
use mathlib.Core.List.{append_assoc}
use amt.Prelude.Bytes.{to_be}
use amt.Driad.Names.{trim_dots, split_dots, join_dots, put_labels, put_dns_name, parse_dns_name}
use amt.Driad.Labels.{IsAscii, labels_read, split_dots-All, join_dots-split_dots, put_labels-length}

trim_dots-All : (name : List ℕ) → All IsAscii name → All IsAscii (trim_dots name)
trim_dots-All [] h = tt
trim_dots-All (b ∷ rest) h = ground (arith, h.0, trim_dots-All rest h.1)

-- What is put for a name: its labels, and the end.
record Named (name bytes : List ℕ) : Type 0 where
  labels : List (List ℕ)
  put : List ℕ
  put_all : put_labels name labels ≡ ok put
  split : bytes ≡ put ++ (0 ∷ [])
  joined : join_dots labels ≡ name
  few : length labels < 128
  ascii : All (All IsAscii) labels

no_name : (name : List ℕ) → (length name == 0) ≡ true → name ≡ []
no_name [] e = refl
no_name (b ∷ rest) e = absurd (ground arith)

put_dns_name-Named :
    (name bytes : List ℕ)
    → All IsAscii name
    → put_dns_name name ≡ ok bytes
    → Named (trim_dots name) bytes
unfolding put_dns_name put_labels
put_dns_name-Named untrimmed bytes ascii e =
    let name = trim_dots untrimmed in
    elim (Bool-cases (length name == 0)) [
      | inl nothing ↦ record {
        labels = [];
        put = [];
        put_all = refl;
        split = let short = rw nothing at e in cc;
        joined = sym (no_name name nothing);
        few = omega arith;
        ascii = tt;
      }
      | inr something ↦
          (let (fits, put_rest) = refuse-eq-ok (ltb 253 (length name)) _ _ (rw something at e) in
            let (put, put_all, same) =
              >>=-eq-ok (put_labels name (split_dots name)) (λ bytes. ok (bytes ++ (0 ∷ [])))
                put_rest in
            let (twice, bound) = put_labels-length name (split_dots name) put put_all in
            let joined = join_dots-split_dots name in
            record {
              labels = split_dots name;
              put = put;
              put_all = put_all;
              split = cc;
              joined = joined;
              few = ground (arith, twice, rw joined at bound, fits);
              ascii = split_dots-All name (trim_dots-All untrimmed ascii);
            })
    ]

-- A name of ASCII characters that is put anywhere into a message is read back, without the dots at
-- its end, up to the place behind it.
pub parse_dns_name-put_dns_name :
    (before name bytes after : List ℕ)
    → All IsAscii name
    → put_dns_name name ≡ ok bytes
    → parse_dns_name (before ++ (bytes ++ after)) (length before)
      ≡ ok (trim_dots name, length before + length bytes)
unfolding parse_dns_name
parse_dns_name-put_dns_name before name bytes after ascii e =
    let n = put_dns_name-Named name bytes ascii e in
    let whole : before ++ (bytes ++ after) ≡ before ++ (n.put ++ (0 ∷ after)) =
      rw n.split (ap (λ (bs : List ℕ). before ++ bs) (append_assoc n.put (0 ∷ []) after)) in
    let count : length before + length n.put + 1 ≡ length before + length bytes =
      rw n.split (omega (arith, length-append n.put (0 ∷ []))) in
    rw (whole, sym count, sym n.joined)
      (labels_read 128 (trim_dots name) before n.put after n.labels [] n.put_all n.ascii n.few)

-- The front of a response that has no error.
abbrev pub response_header : ℕ → ℕ → List ℕ
response_header id ancount =
    to_be 2 id ++ (0x81 ∷ 0x80 ∷ 0 ∷ 1 ∷ (to_be 2 ancount ++ (0 ∷ 0 ∷ 0 ∷ 0 ∷ [])))
