-- ===== src/Checksum/Tests.antt =====
-- Bytes at which the theorems on the checksum apply.
use amt.Prelude.{ℕ, ◌≡◌, arith, List, [], ◌∷◌, ◌++◌, All}
use amt.Prelude.Bytes.{IsByte, to_be}
use amt.Checksum.{checksum, checksum_parts, ones_complement_sum}
use amt.Checksum.Laws.{
  carried, words, ones_complement_sum-words, checksum_verifies, checksum_parts-concat, concat,
}

abbrev front : List ℕ
front = 0x45 ∷ 0 ∷ 0xff ∷ 0xff ∷ []

abbrev back : List ℕ
back = 192 ∷ 0 ∷ 2 ∷ []

front_bytes : All IsByte front
front_bytes = ground arith

back_bytes : All IsByte back
back_bytes = ground arith

ones_complement_sum-words_example : ones_complement_sum front ≡ carried (words front)
ones_complement_sum-words_example = ones_complement_sum-words front front_bytes

checksum_verifies_example :
    ones_complement_sum (front ++ (to_be 2 (checksum (front ++ (0 ∷ 0 ∷ back))) ++ back)) ≡ 0xffff
checksum_verifies_example = checksum_verifies front back tt front_bytes back_bytes

checksum_parts-concat_example :
    checksum_parts (front ∷ back ∷ front ∷ []) ≡ checksum (concat (front ∷ back ∷ front ∷ []))
checksum_parts-concat_example = checksum_parts-concat (front ∷ back ∷ front ∷ [])
