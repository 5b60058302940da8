-- ===== src/Driad/Names.antt =====
-- The names of DNS in driad.rs: how one is written into a message and how it is read.
use amt.Prelude.{
  ℕ, zero, suc, ◌+◌, ◌*◌, ◌/◌, ◌%◌, Bool, true, false, ◌&&◌, ◌||◌, Option, none, some, List, [],
  ◌∷◌, ◌++◌, Result, ok, err, guard, ok_or, ◌>>=◌, ◌>>◌, if◌then◌else◌, length, map, get_elem?, ltb,
  leb, ◌==◌,
}
use amt.Prelude.Bytes.{slice, bytes_eq}
use amt.Driad.{DriadError, truncated, invalid_dns_name, invalid_dns_pointer, invalid_relay_name}

-- `trim_end_matches('.')`.
abbrev pub trim_dots : List ℕ → List ℕ
trim_dots [] = []
trim_dots (b ∷ rest) =
    let trimmed = trim_dots rest in if length trimmed == 0 && b == 46 then [] else b ∷ trimmed

-- `split('.')` and `join(".")`.
abbrev pub onto_first : ℕ → List (List ℕ) → List (List ℕ)
onto_first b [] = (b ∷ []) ∷ []
onto_first b (label ∷ labels) = (b ∷ label) ∷ labels

abbrev pub split_dots : List ℕ → List (List ℕ)
split_dots [] = [] ∷ []
split_dots (b ∷ rest) =
    let labels = split_dots rest in if b == 46 then [] ∷ labels else onto_first b labels

abbrev pub join_dots : List (List ℕ) → List ℕ
join_dots [] = []
join_dots (label ∷ []) = label
join_dots (label ∷ next ∷ labels) = label ++ (46 ∷ join_dots (next ∷ labels))

abbrev pub to_ascii_lowercase : ℕ → ℕ
to_ascii_lowercase b = if leb 65 b && leb b 90 then b + 32 else b

abbrev pub eq_ignore_ascii_case : List ℕ → List ℕ → Bool
eq_ignore_ascii_case left right =
    bytes_eq (map to_ascii_lowercase left) (map to_ascii_lowercase right)

unfoldable pub dns_name_eq : List ℕ → List ℕ → Bool
dns_name_eq left right = eq_ignore_ascii_case (trim_dots left) (trim_dots right)

-- What a lead byte of UTF-8 asks for: how many bytes follow, and the bounds of the first of them.
abbrev pub utf8_lead : ℕ → Option (ℕ × (ℕ × ℕ))
utf8_lead b =
    if ltb b 0x80
    then some (0, (0, 0))
    else if leb 0xc2 b && leb b 0xdf
    then some (1, (0x80, 0xbf))
    else if b == 0xe0
    then some (2, (0xa0, 0xbf))
    else if b == 0xed
    then some (2, (0x80, 0x9f))
    else if leb 0xe1 b && leb b 0xef
    then some (2, (0x80, 0xbf))
    else if b == 0xf0
    then some (3, (0x90, 0xbf))
    else if leb 0xf1 b && leb b 0xf3
    then some (3, (0x80, 0xbf))
    else if b == 0xf4
    then some (3, (0x80, 0x8f))
    else none

-- `from_utf8`, with the number of bytes that the character has left.
unfoldable pub is_utf8_after : ℕ → ℕ → ℕ → List ℕ → Bool
is_utf8_after zero first last [] = true
is_utf8_after (suc n) first last [] = false
is_utf8_after zero first last (b ∷ rest) = elim (utf8_lead b) [
  | none ↦ false
  | some (n, (low, high)) ↦ is_utf8_after n low high rest
]
is_utf8_after (suc n) first last (b ∷ rest) =
    (leb first b && leb b last) && is_utf8_after n 0x80 0xbf rest

abbrev pub is_utf8 : List ℕ → Bool
is_utf8 bytes = is_utf8_after 0 0 0 bytes

-- The loop over the labels. The length of a label is at most 63, so it is its byte.
unfoldable pub put_labels : List ℕ → List (List ℕ) → Result DriadError (List ℕ)
put_labels name [] = ok []
put_labels name (label ∷ labels) =
    if length label == 0 || ltb 63 (length label)
    then err (invalid_dns_name name)
    else (put_labels name labels >>= λ bytes. ok (length label ∷ (label ++ bytes)))

-- The bytes that the source appends.
unfoldable pub put_dns_name : List ℕ → Result DriadError (List ℕ)
unfolding put_labels
put_dns_name untrimmed =
    let name = trim_dots untrimmed in
    if length name == 0
    then ok (0 ∷ [])
    else if ltb 253 (length name)
    then err (invalid_dns_name name)
    else (put_labels name (split_dots name) >>= λ bytes. ok (bytes ++ (0 ∷ [])))

-- One round of the loop that reads a name: its end, a label and where it ends, or a pointer.
pub data NameStep : Type 0 where
  name_end : NameStep
  name_label : List ℕ → (label_end : ℕ) → NameStep
  name_pointer : ℕ → NameStep

abbrev pub label_at : List ℕ → ℕ → ℕ → Result DriadError NameStep
label_at message cursor label_end = do
  guard (leb label_end (length message)) (truncated "DNS label")
  guard (is_utf8 (slice message cursor label_end)) invalid_relay_name
  ok (name_label (slice message cursor label_end) label_end)

abbrev pub pointer_at : List ℕ → ℕ → ℕ → Result DriadError NameStep
pointer_at message cursor len = do
  tail ← ok_or (get_elem? message (cursor + 1)) (truncated "DNS pointer")
  guard (ltb (len % 64 * 256 + tail) (length message)) invalid_dns_pointer
  ok (name_pointer (len % 64 * 256 + tail))

-- The two highest bits of a byte, `len & 0xc0`, are those of `len / 64`.
unfoldable pub name_step : List ℕ → ℕ → Result DriadError NameStep
unfolding is_utf8_after
name_step message cursor = do
  len ← ok_or (get_elem? message cursor) (truncated "DNS name")
  if len / 64 == 0
      then (if len == 0 then ok name_end else label_at message (cursor + 1) (cursor + 1 + len))
      else if len / 64 == 3
      then pointer_at message cursor len
      else err invalid_dns_pointer

abbrev pub unwrap_or : Option ℕ → ℕ → ℕ
unwrap_or none d = d
unwrap_or (some n) d = n

-- `parse_dns_name` from the cursor on, with the rounds that are left, the place behind the first
-- pointer, and the labels that were read.
unfoldable pub parse_labels :
    ℕ → List ℕ → ℕ → Option ℕ → List (List ℕ) → Result DriadError (List ℕ × ℕ)
unfolding name_step
parse_labels zero message cursor next_offset labels = err invalid_dns_pointer
parse_labels (suc rounds) message cursor next_offset labels = elim (name_step message cursor) [
  | err e ↦ err e
  | ok name_end ↦ ok (join_dots labels, unwrap_or next_offset (cursor + 1))
  | ok (name_label bytes label_end) ↦
      parse_labels rounds message label_end next_offset (labels ++ (bytes ∷ []))
  | ok (name_pointer target) ↦
      parse_labels rounds message target (some (unwrap_or next_offset (cursor + 2))) labels
]

unfoldable pub parse_dns_name : List ℕ → ℕ → Result DriadError (List ℕ × ℕ)
unfolding parse_labels
parse_dns_name message offset = parse_labels 128 message offset none []
