-- ===== src/Protocol/Mac.antt =====
-- `ResponseMac::constant_time_eq` and the gateway address field.
use amt.Prelude.{
  ℕ, ◌/◌, ◌%◌, ◌^◌, ◌<◌, ◌≡◌, refl, sym, ◌∙◌, arith, ap, if◌then◌else◌, ltb, replicate, ltb→lt,
  Bool-cases, inl, inr, true, ◌↔◌, none, some, List, [], ◌∷◌, length, bit_or, bit_xor, ==_iff,
}
use mathlib.Core.Path.{ap₂}
use amt.Prelude.Bits.{bit_or-eq-zero, bit_xor-eq-zero, bit_xor_self}
use amt.Prelude.Bytes.{from_be-to_be, to_be, from_be, bytes_eq, bytes_eq_iff}
use amt.Address.{v4, v6}
use amt.Protocol.Codec.{mac_difference, constant_time_eq, from_ip_addr, as_ipv4_compatible, as_ipv6}

mac_difference-zero :
    (d : ℕ) (left right : List ℕ)
    → length left ≡ length right
    → mac_difference d left right ≡ 0
    → (d ≡ 0) × (left ≡ right)
unfolding mac_difference
mac_difference-zero d [] [] e h = (h, refl)
mac_difference-zero d [] (r ∷ right) e h = absurd (omega arith)
mac_difference-zero d (l ∷ left) [] e h = absurd (omega arith)
mac_difference-zero d (l ∷ left) (r ∷ right) e h =
    let (z, same) = mac_difference-zero (bit_or d (bit_xor l r)) left right (omega arith) h in
    let (dz, xz) = bit_or-eq-zero d (bit_xor l r) z in (dz, ap₂ ◌∷◌ (bit_xor-eq-zero l r xz) same)

mac_difference_self : (left : List ℕ) → mac_difference 0 left left ≡ 0
unfolding mac_difference
mac_difference_self [] = refl
mac_difference_self (l ∷ left) = rw (bit_xor_self l) (mac_difference_self left)

-- The comparison without early exit accepts exactly the equal one of two MACs of the same length.
pub constant_time_eq_iff :
    (left right : List ℕ)
    → length left ≡ length right
    → (constant_time_eq left right ≡ true) ↔ (left ≡ right)
unfolding constant_time_eq
constant_time_eq_iff left right e = (
  λ h. (mac_difference-zero 0 left right e ((==_iff _ _).0 h)).1,
  λ h. rw (← h, mac_difference_self left),
)

high_bytes_zero : (n : ℕ) → n < 256 ^ 12 → (bytes_eq (to_be 12 n) (replicate 12 0) ≡ true) ↔ (n ≡ 0)
high_bytes_zero n h = (
  λ e. sym (from_be-to_be 12 n h) ∙ ap from_be ((bytes_eq_iff (to_be 12 n) (replicate 12 0)).0 e),
  λ e. rw e,
)

as_ipv4_compatible_high :
    (b : ℕ)
    → b < 2 ^ 128
    → as_ipv4_compatible (from_ip_addr (v6 b)) ≡ (
        if bytes_eq (to_be 12 (b / 256 / 256 / 256 / 256)) (replicate 12 0)
        then some (b % 2 ^ 32)
        else none)
unfolding as_ipv4_compatible from_ip_addr
as_ipv4_compatible_high b h = ground (arith, from_be-to_be 4 (b % 2 ^ 32) (omega arith))

as_ipv4_compatible_v6 :
    (b : ℕ)
    → b < 2 ^ 128
    → as_ipv4_compatible (from_ip_addr (v6 b)) ≡ (if ltb b (2 ^ 32) then some b else none)
as_ipv4_compatible_v6 b h =
    let high = b / 256 / 256 / 256 / 256 in
    let zero_iff = high_bytes_zero high (omega arith) in
    rw (as_ipv4_compatible_high b h)
      (elim (Bool-cases (bytes_eq (to_be 12 high) (replicate 12 0))) [
        | inl e ↦ let z = zero_iff.0 e in rw e (ground arith)
        | inr e ↦ rw e (elim (Bool-cases (ltb b (2 ^ 32))) [
          | inl l ↦ cc (zero_iff.1 (omega (arith, ltb→lt b (2 ^ 32) l)))
          | inr l ↦ rw l
        ])
      ])

-- The gateway address field gives an address back in its own family, but for the IPv6 addresses
-- below 2 ^ 32 (`::/96`, the loopback address among them): these are read back as IPv4.
pub as_ipv4_compatible-from_ip_addr :
    (a b : ℕ)
    → a < 2 ^ 32
    → b < 2 ^ 128
    → (as_ipv4_compatible (from_ip_addr (v4 a)) ≡ some a)
      × (as_ipv6 (from_ip_addr (v6 b)) ≡ b)
      × (as_ipv4_compatible (from_ip_addr (v6 b)) ≡ (if ltb b (2 ^ 32) then some b else none))
unfolding as_ipv6 as_ipv4_compatible from_ip_addr
as_ipv4_compatible-from_ip_addr a b ha hb =
    (ground (arith, from_be-to_be 4 a ha), from_be-to_be 16 b hb, as_ipv4_compatible_v6 b hb)
