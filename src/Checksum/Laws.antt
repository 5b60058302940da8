-- ===== src/Checksum/Laws.antt =====
-- The sum as arithmetic modulo 65535, and the checksum that a packet carries in itself.
use amt.Prelude.{
  ℕ, ◌+◌, ◌-◌, ◌*◌, ◌%◌, ◌^◌, ◌<◌, ◌≡◌, refl, ap, sym, ◌∙◌, arith, none, List, [], ◌∷◌, ◌++◌, All,
  if◌then◌else◌, ◌==◌,
}
use amt.Prelude.Bytes.{IsByte, to_be, to_be-IsByte}
use amt.Prelude.{All-append}
use amt.Checksum.{
  Sum, add_word, add_byte, sum_part, sum_parts, finish, ones_complement_sum_parts,
  ones_complement_sum, checksum, checksum_parts,
}

-- The representative of `n` modulo 65535 that the end-around carry leaves: 0 for 0 alone.
abbrev pub carried : ℕ → ℕ
carried n = if n == 0 then 0 else (n - 1) % 65535 + 1

-- The words of the bytes, summed; an odd byte at the end is a high byte.
abbrev pub words : List ℕ → ℕ
words [] = 0
words (a ∷ []) = a * 256
words (a ∷ b ∷ rest) = a * 256 + b + words rest

add_word-carried : (n word : ℕ) → word < 2 ^ 16 → add_word (carried n) word ≡ carried (n + word)
unfolding add_word
add_word-carried n word h = ground arith

carried-lt : (n : ℕ) → carried n < 2 ^ 16
carried-lt n = ground arith

-- The sum of further bytes, an even number of them read so far.
abbrev sum_from : ℕ → List ℕ → ℕ
unfolding sum_part finish
sum_from n bytes =
    let s = sum_part (record { sum = n; high_byte = none }) bytes in finish s.high_byte s.sum

sum_part-words :
    (bytes : List ℕ) (n : ℕ)
    → All IsByte bytes
    → sum_from (carried n) bytes ≡ carried (n + words bytes)
unfolding sum_from
sum_part-words [] n h = ground arith
sum_part-words (a ∷ []) n h = ground (arith, add_word-carried n (a * 256), carried-lt (n + a * 256))
sum_part-words (a ∷ b ∷ rest) n h =
    ap (λ (t : ℕ). sum_from t rest) (add_word-carried n (a * 256 + b) (ground arith))
    ∙ sum_part-words rest (n + (a * 256 + b)) h.1.1
    ∙ ap carried (omega arith)

-- The one's complement sum of bytes is the sum of their words, with the carries brought round.
pub ones_complement_sum-words :
    (bytes : List ℕ) → All IsByte bytes → ones_complement_sum bytes ≡ carried (words bytes)
unfolding ones_complement_sum
ones_complement_sum-words bytes h = sum_part-words bytes 0 h ∙ ap carried (omega arith)

abbrev pub IsEven : List ℕ → Type 0
IsEven [] = Unit
IsEven (a ∷ []) = ⊥
IsEven (a ∷ b ∷ rest) = IsEven rest

words-append : (xs ys : List ℕ) → IsEven xs → words (xs ++ ys) ≡ words xs + words ys
words-append [] ys h = omega arith
words-append (a ∷ []) ys h = absurd h
words-append (a ∷ b ∷ rest) ys h = omega (arith, words-append rest ys h)

checksum-words :
    (bytes : List ℕ) → All IsByte bytes → checksum bytes ≡ 0xffff - carried (words bytes)
unfolding checksum ones_complement_sum
checksum-words bytes h = ap (λ (t : ℕ). 0xffff - t) (ones_complement_sum-words bytes h)

-- The complement of a sum, added to it, gives 65535.
complement_fills : (n c m : ℕ) → c ≡ 0xffff - carried n → m ≡ n + c → carried m ≡ 0xffff
complement_fills n c m h e = ground arith

-- Where a packet of bytes is summed with a zero checksum field at an even offset, and the checksum is then
-- written there, the packet's sum verifies: it is 0xffff.
pub checksum_verifies :
    (front back : List ℕ)
    → IsEven front
    → All IsByte front
    → All IsByte back
    → ones_complement_sum (front ++ (to_be 2 (checksum (front ++ (0 ∷ 0 ∷ back))) ++ back)) ≡ 0xffff
checksum_verifies front back even hf hb =
    ones_complement_sum-words (front ++ (to_be 2 c ++ back)) (
      All-append IsByte front (to_be 2 c ++ back) hf
        (All-append IsByte (to_be 2 c) back (to_be-IsByte 2 c) hb))
    ∙ complement_fills (words front + words back) c (words (front ++ (to_be 2 c ++ back))) cleared
        (words-append front (to_be 2 c ++ back) even ∙ omega (arith, cleared))
  where
    c : ℕ
    c = checksum (front ++ (0 ∷ 0 ∷ back))

    cleared : c ≡ 0xffff - carried (words front + words back)
    cleared =
        checksum-words (front ++ (0 ∷ 0 ∷ back))
          (All-append IsByte front (0 ∷ 0 ∷ back) hf (omega arith, (omega arith, hb)))
        ∙ ap (λ (t : ℕ). 0xffff - carried t) (words-append front (0 ∷ 0 ∷ back) even ∙ omega arith)

sum_part-append : (s : Sum) (xs ys : List ℕ) → sum_part s (xs ++ ys) ≡ sum_part (sum_part s xs) ys
unfolding sum_part
sum_part-append s [] ys = refl
sum_part-append s (x ∷ xs) ys = sum_part-append (add_byte s.high_byte s.sum x) xs ys

abbrev pub concat : List (List ℕ) → List ℕ
concat [] = []
concat (part ∷ rest) = part ++ concat rest

sum_parts-concat : (s : Sum) (parts : List (List ℕ)) → sum_parts s parts ≡ sum_part s (concat parts)
unfolding sum_parts sum_part
sum_parts-concat s [] = refl
sum_parts-concat s (part ∷ rest) =
    sum_parts-concat (sum_part s part) rest ∙ sym (sum_part-append s part (concat rest))

-- The checksum of parts is the checksum of the bytes in one piece, wherever the parts are cut, at
-- odd offsets too.
pub checksum_parts-concat : (parts : List (List ℕ)) → checksum_parts parts ≡ checksum (concat parts)
unfolding checksum checksum_parts ones_complement_sum_parts
checksum_parts-concat parts =
    ap (λ (s : Sum). 0xffff - finish s.high_byte s.sum)
      (sum_parts-concat (record { sum = 0; high_byte = none }) parts)

pub checksum-complement : (bytes : List ℕ) → checksum bytes ≡ 0xffff - ones_complement_sum bytes
unfolding checksum checksum_parts ones_complement_sum
checksum-complement bytes = refl
