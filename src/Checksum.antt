-- ===== src/Checksum.antt =====
-- checksum.rs: the Internet checksum. `sum & 0xffff` is `sum % 2 ^ 16`, and `sum >> 16` is
-- `sum / 2 ^ 16`.
pub mod Laws
mod Tests
use amt.Prelude.{ℕ, ◌+◌, ◌-◌, ◌*◌, ◌/◌, ◌%◌, ◌^◌, Option, none, some, List, [], ◌∷◌, length}
use amt.Prelude.Bytes.{to_be}

-- The running sum, and the high byte of a word whose low byte is still to come.
pub record Sum : Type 0 where
  pub sum : ℕ
  pub high_byte : Option ℕ

-- Adds a word, with the carry brought round.
unfoldable pub add_word : ℕ → ℕ → ℕ
add_word sum word = (sum + word) % 2 ^ 16 + (sum + word) / 2 ^ 16

abbrev pub add_byte : Option ℕ → ℕ → ℕ → Sum
unfolding add_word
add_byte (some high) sum byte = record { sum = add_word sum (high * 256 + byte); high_byte = none }
add_byte none sum byte = record { sum = sum; high_byte = some byte }

unfoldable pub sum_part : Sum → List ℕ → Sum
unfolding add_byte add_word
sum_part s [] = s
sum_part s (byte ∷ rest) = sum_part (add_byte s.high_byte s.sum byte) rest

unfoldable pub sum_parts : Sum → List (List ℕ) → Sum
unfolding sum_part
sum_parts s [] = s
sum_parts s (part ∷ rest) = sum_parts (sum_part s part) rest

-- A byte left over is the high byte of a last word.
abbrev pub finish : Option ℕ → ℕ → ℕ
unfolding add_word
finish none sum = sum % 2 ^ 16
finish (some high) sum = add_word sum (high * 256) % 2 ^ 16

unfoldable pub ones_complement_sum_parts : List (List ℕ) → ℕ
unfolding sum_parts finish
ones_complement_sum_parts parts =
    let s = sum_parts (record { sum = 0; high_byte = none }) parts in finish s.high_byte s.sum

unfoldable pub ones_complement_sum : List ℕ → ℕ
unfolding ones_complement_sum_parts
ones_complement_sum bytes = ones_complement_sum_parts (bytes ∷ [])

-- `!sum` on 16 bits.
unfoldable pub checksum_parts : List (List ℕ) → ℕ
unfolding ones_complement_sum_parts
checksum_parts parts = 0xffff - ones_complement_sum_parts parts

unfoldable pub checksum : List ℕ → ℕ
unfolding checksum_parts
checksum bytes = checksum_parts (bytes ∷ [])

unfoldable pub icmpv6_checksum : List ℕ → List ℕ → ℕ → List ℕ → ℕ
unfolding checksum_parts
icmpv6_checksum source destination next_header payload = checksum_parts (
    source
    ∷ destination
    ∷ to_be 4 (length payload % 2 ^ 32)
    ∷ (0 ∷ 0 ∷ 0 ∷ next_header ∷ [])
    ∷ payload
    ∷ [])
