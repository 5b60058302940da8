-- ===== src/Driad/Labels.antt =====
-- The labels of a name of DNS: splitting and joining it, and reading back what was put.
use amt.Prelude.{
  ℕ, zero, suc, ◌+◌, ◌-◌, ◌*◌, ◌<◌, ◌≤◌, ◌≡◌, refl, ap, ◌∙◌, arith, true, ◌||◌, Option, none, some,
  List, [], ◌∷◌, ◌++◌, ok, length, length-append, take-append, drop-append, get_elem?, All, ltb,
  ◌==◌, Bool-cases, inl, inr, refuse-eq-ok, >>=-eq-ok,
}
use mathlib.Core.List.{append_assoc, append-nil}
use amt.Prelude.Bytes.{slice}
use amt.Driad.Names.{
  split_dots, onto_first, join_dots, is_utf8, is_utf8_after, put_labels, name_label, name_end,
  name_step, unwrap_or, parse_labels,
}

abbrev pub IsAscii : ℕ → Type 0
IsAscii b = b < 128

ascii-is_utf8 : (bytes : List ℕ) → All IsAscii bytes → is_utf8 bytes ≡ true
unfolding is_utf8_after
ascii-is_utf8 [] h = refl
ascii-is_utf8 (b ∷ rest) h = ground (arith, h.0, ascii-is_utf8 rest h.1)

onto_first-join :
    (b : ℕ) (labels : List (List ℕ)) → join_dots (onto_first b labels) ≡ b ∷ join_dots labels
onto_first-join b [] = refl
onto_first-join b (label ∷ []) = refl
onto_first-join b (label ∷ next ∷ labels) = refl

empty_first-join :
    (labels : List (List ℕ)) → 0 < length labels → join_dots ([] ∷ labels) ≡ 46 ∷ join_dots labels
empty_first-join [] h = absurd (omega (arith, h))
empty_first-join (label ∷ labels) h = refl

onto_first-length : (b : ℕ) (labels : List (List ℕ)) → 0 < length (onto_first b labels)
onto_first-length b [] = omega arith
onto_first-length b (label ∷ labels) = omega arith

split_dots-length : (name : List ℕ) → 0 < length (split_dots name)
split_dots-length [] = omega arith
split_dots-length (b ∷ rest) = ground (arith, onto_first-length b (split_dots rest))

pub join_dots-split_dots : (name : List ℕ) → join_dots (split_dots name) ≡ name
join_dots-split_dots [] = refl
join_dots-split_dots (b ∷ rest) = elim (Bool-cases (b == 46)) [
  | inl dot ↦ rw dot (
      empty_first-join (split_dots rest) (split_dots-length rest)
      ∙ ground (arith, dot, join_dots-split_dots rest))
  | inr other ↦
      rw other (onto_first-join b (split_dots rest) ∙ ap (◌∷◌ b) (join_dots-split_dots rest))
]

onto_first-All :
    (b : ℕ) (labels : List (List ℕ))
    → IsAscii b
    → All (All IsAscii) labels
    → All (All IsAscii) (onto_first b labels)
onto_first-All b [] h all = ((h, tt), tt)
onto_first-All b (label ∷ labels) h all = ((h, all.0), all.1)

pub split_dots-All : (name : List ℕ) → All IsAscii name → All (All IsAscii) (split_dots name)
split_dots-All [] h = (tt, tt)
split_dots-All (b ∷ rest) h = elim (Bool-cases (b == 46)) [
  | inl dot ↦ rw dot (tt, split_dots-All rest h.1)
  | inr other ↦ rw other (onto_first-All b (split_dots rest) h.0 (split_dots-All rest h.1))
]

get_elem?-append : (xs ys : List ℕ) (y : ℕ) → get_elem? (xs ++ (y ∷ ys)) (length xs) ≡ some y
get_elem?-append [] ys y = refl
get_elem?-append (x ∷ xs) ys y = get_elem?-append xs ys y

-- A cut that starts behind `before` and ends behind `mid`.
pub slice-append :
    (before mid after : List ℕ)
    → slice (before ++ (mid ++ after)) (length before) (length before + length mid) ≡ mid
slice-append before mid after =
    let cut : length before + length mid - length before ≡ length mid = omega arith in
    rw (drop-append before (mid ++ after)) (rw cut (take-append mid after))

name_step-label :
    (message : List ℕ) (cursor n : ℕ) (bytes : List ℕ)
    → get_elem? message cursor ≡ some n
    → 0 < n
    → n < 64
    → cursor + 1 + n ≤ length message
    → slice message (cursor + 1) (cursor + 1 + n) ≡ bytes
    → is_utf8 bytes ≡ true
    → name_step message cursor ≡ ok (name_label bytes (cursor + 1 + n))
unfolding name_step
name_step-label message cursor n bytes at_cursor positive small fits cut valid =
    rw (at_cursor, cut) (ground (arith, valid, fits, positive, small))

label_read :
    (before bytes rest : List ℕ)
    → 0 < length bytes
    → length bytes < 64
    → All IsAscii bytes
    → name_step (before ++ (length bytes ∷ (bytes ++ rest))) (length before)
      ≡ ok (name_label bytes (length before + 1 + length bytes))
label_read before bytes rest positive small ascii =
    let n = length bytes in
    let front = before ++ (n ∷ []) in
    let same : front ++ (bytes ++ rest) ≡ before ++ (n ∷ (bytes ++ rest)) =
      append_assoc before (n ∷ []) (bytes ++ rest) in
    let len : length front ≡ length before + 1 = length-append before (n ∷ []) in
    name_step-label (before ++ (n ∷ (bytes ++ rest))) (length before) n bytes
      (get_elem?-append before (bytes ++ rest) n) positive small
      (omega (arith, length-append before (n ∷ (bytes ++ rest)), length-append bytes rest))
      (rw (same, len) at (slice-append front bytes rest)) (ascii-is_utf8 bytes ascii)

name_end_read :
    (before after : List ℕ) → name_step (before ++ (0 ∷ after)) (length before) ≡ ok name_end
unfolding name_step
name_end_read before after = rw (get_elem?-append before after 0) refl

-- What is put for the first label and for those behind it.
record Put (name front : List ℕ) (labels : List (List ℕ)) (bytes : List ℕ) : Type 0 where
  rest : List ℕ
  put_rest : put_labels name labels ≡ ok rest
  split : bytes ≡ length front ∷ (front ++ rest)
  positive : 0 < length front
  small : length front < 64

put_labels-ok :
    (name front : List ℕ) (labels : List (List ℕ)) (bytes : List ℕ)
    → put_labels name (front ∷ labels) ≡ ok bytes
    → Put name front labels bytes
unfolding put_labels
put_labels-ok name front labels bytes e =
    let (fits, put) = refuse-eq-ok (length front == 0 || ltb 63 (length front)) _ _ e in
    let (rest, put_rest, same) =
      >>=-eq-ok (put_labels name labels) (λ bytes. ok (length front ∷ (front ++ bytes))) put in
    record {
      rest = rest;
      put_rest = put_rest;
      split = cc;
      positive = ground (arith, fits);
      small = ground (arith, fits);
    }

put_nothing : (name bytes : List ℕ) → put_labels name [] ≡ ok bytes → bytes ≡ []
unfolding put_labels
put_nothing name bytes e = cc

-- Every label takes two bytes at least, and the labels take one more than the name they join to.
pub put_labels-length :
    (name : List ℕ) (labels : List (List ℕ)) (bytes : List ℕ)
    → put_labels name labels ≡ ok bytes
    → (length labels * 2 ≤ length bytes) × (length bytes ≤ length (join_dots labels) + 1)
unfolding put_labels
put_labels-length name [] bytes e = let same : bytes ≡ [] = cc in rw same (omega arith, omega arith)
put_labels-length name (front ∷ []) bytes e =
    let p = put_labels-ok name front [] bytes e in
    let none_left : p.rest ≡ [] = let q = p.put_rest in cc in
    rw (p.split, none_left)
      (omega (arith, p.positive, length-append front []), omega (arith, length-append front []))
put_labels-length name (front ∷ next ∷ labels) bytes e =
    let p = put_labels-ok name front (next ∷ labels) bytes e in
    let (twice, bound) = put_labels-length name (next ∷ labels) p.rest p.put_rest in
    rw p.split (
      omega (arith, twice, p.positive, length-append front p.rest),
      omega (
        arith,
        bound,
        length-append front p.rest,
        length-append front (46 ∷ join_dots (next ∷ labels)),
      ),
    )

parse_labels-end :
    (rounds cursor : ℕ) (message : List ℕ) (next_offset : Option ℕ) (labels : List (List ℕ))
    → name_step message cursor ≡ ok name_end
    → parse_labels (suc rounds) message cursor next_offset labels
      ≡ ok (join_dots labels, unwrap_or next_offset (cursor + 1))
unfolding parse_labels
parse_labels-end rounds cursor message next_offset labels e = rw (e, parse_labels) refl

parse_labels-label :
    (rounds cursor last : ℕ) (message : List ℕ) (next_offset : Option ℕ) (labels : List (List ℕ))
    (bytes : List ℕ)
    → name_step message cursor ≡ ok (name_label bytes last)
    → parse_labels (suc rounds) message cursor next_offset labels
      ≡ parse_labels rounds message last next_offset (labels ++ (bytes ∷ []))
unfolding parse_labels
parse_labels-label rounds cursor last message next_offset labels bytes e = rw (e, parse_labels) refl

pub labels_read :
    (rounds : ℕ) (name before bytes after : List ℕ) (labels read : List (List ℕ))
    → put_labels name labels ≡ ok bytes
    → All (All IsAscii) labels
    → length labels < rounds
    → parse_labels rounds (before ++ (bytes ++ (0 ∷ after))) (length before) none read
      ≡ ok (join_dots (read ++ labels), length before + length bytes + 1)
labels_read zero name before bytes after labels read e ascii enough = absurd (omega (arith, enough))
labels_read (suc rounds) name before bytes after [] read e ascii enough =
    let none_left = put_nothing name bytes e in
    let same : length before + 1 ≡ length before + 0 + 1 = omega arith in
    rw (none_left, append-nil read)
      (parse_labels-end rounds (length before) (before ++ (0 ∷ after)) none read
          (name_end_read before after)
        ∙ ap (λ (n : ℕ). ok (join_dots read, n)) same)
labels_read (suc rounds) name before bytes after (front ∷ labels) read e ascii enough =
    let p = put_labels-ok name front labels bytes e in
    let rest = p.rest ++ (0 ∷ after) in
    let before' = before ++ (length front ∷ front) in
    let message = before ++ (length front ∷ (front ++ rest)) in
    let whole : before ++ (bytes ++ (0 ∷ after)) ≡ message = rw p.split (
      ap (λ (bs : List ℕ). before ++ (length front ∷ bs))
        (append_assoc front p.rest (0 ∷ after))) in
    let split : before' ++ rest ≡ message = append_assoc before (length front ∷ front) rest in
    let len : length before' ≡ length before + 1 + length front =
      omega (arith, length-append before (length front ∷ front)) in
    let count : length before + 1 + length front + length p.rest + 1
        ≡ length before + length bytes + 1 =
      rw p.split (omega (arith, length-append front p.rest)) in
    let behind =
      labels_read rounds name before' p.rest after labels (read ++ (front ∷ [])) p.put_rest ascii.1
        (omega (arith, enough)) in
    let behind' : parse_labels rounds message (length before + 1 + length front) none
          (read ++ (front ∷ []))
        ≡ ok (join_dots (read ++ (front ∷ labels)), length before + length bytes + 1) =
      rw (split, len, append_assoc read (front ∷ []) labels) at behind
      ∙ ap (λ (n : ℕ). ok (join_dots (read ++ (front ∷ labels)), n)) count in
    rw whole (
      parse_labels-label rounds (length before) (length before + 1 + length front) message none read
        front (label_read before front rest p.positive p.small ascii.0)
      ∙ behind')
