-- ===== src/Query/Interval.antt =====
-- The interval code that `encode_query_interval` chooses.
use amt.Prelude.{
  ℕ, zero, suc, ◌+◌, ◌-◌, ◌≤◌, ◌<◌, ◌≡◌, refl, ap, arith, true, ltb, leb, Bool-cases, inl, inr,
  ltb→lt, leb→le, ◌==◌, ==_iff,
}
use amt.Prelude.Bits.{all_below, all_below_sound}
use amt.Query.{query_interval, encode_from, encode_query_interval}

codes_table : all_below 256 (λ c. encode_query_interval (query_interval c) == c) ≡ true
unfolding all_below encode_query_interval query_interval
codes_table = refl

-- Every interval that a code can express is encoded as that code.
pub encode_query_interval-query_interval :
    (code : ℕ) → code < 256 → encode_query_interval (query_interval code) ≡ code
encode_query_interval-query_interval code h =
    (==_iff _ _).0 (all_below_sound 256 _ code h codes_table)

-- The longest interval that a code can express, in seconds.
abbrev pub longest_interval : ℕ
longest_interval = 31744

query_interval-longest : query_interval 255 ≡ longest_interval
unfolding query_interval
query_interval-longest = refl

encode_from-covers :
    (left seconds : ℕ)
    → seconds ≤ longest_interval
    → seconds ≤ query_interval (encode_from left seconds)
unfolding encode_from
encode_from-covers zero seconds h = omega (arith, query_interval-longest)
encode_from-covers (suc left) seconds h = ground (arith, encode_from-covers left seconds)

encode_from-least :
    (left seconds code : ℕ)
    → code < 256
    → 256 ≤ code + left
    → seconds ≤ query_interval code
    → encode_from left seconds ≤ code
unfolding encode_from
encode_from-least zero seconds code h k q = omega arith
encode_from-least (suc left) seconds code h k q = elim (Bool-cases (leb 256 (code + left))) [
  | inl e ↦ ground (arith, encode_from-least left seconds code h, leb→le 256 (code + left) e)
  | inr e ↦ (let same : code ≡ 255 - left = ground arith in ground (arith, ap query_interval same))
]

query_interval_short : (code : ℕ) → code < 128 → query_interval code ≡ code
unfolding query_interval
query_interval_short code h = ground arith

-- An interval within the longest one is encoded as the least code whose interval is not shorter.
pub encode_query_interval-least :
    (seconds code : ℕ)
    → seconds ≤ longest_interval
    → code < 256
    → seconds ≤ query_interval code
    → (seconds ≤ query_interval (encode_query_interval seconds))
      × (encode_query_interval seconds ≤ code)
unfolding encode_query_interval
encode_query_interval-least seconds code h k q = elim (Bool-cases (ltb seconds 128)) [
  | inl e ↦ (
    rw e (omega (arith, query_interval_short seconds (ltb→lt seconds 128 e))),
    elim (Bool-cases (ltb code 128)) [
      | inl short ↦ rw e (omega (arith, query_interval_short code (ltb→lt code 128 short)))
      | inr long ↦ rw e (ground arith)
    ],
  )
  | inr e ↦ (
    rw e (encode_from-covers 128 seconds h),
    rw e (
        encode_from-least 128 seconds code k
          (elim (Bool-cases (ltb code 128)) [
            | inl short ↦ absurd (ground (arith, query_interval_short code (ltb→lt code 128 short)))
            | inr long ↦ ground arith
          ])
          q),
  )
]
