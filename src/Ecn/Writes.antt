-- ===== src/Ecn/Writes.antt =====
-- The bytes that `set_ip_ecn` writes, and the packets it writes them to.
use Prim.Native.Nat.{bit_and, bit_or}
use amt.Prelude.{
  ℕ, suc, ◌-◌, ◌*◌, ◌/◌, ◌≤◌, ◌<◌, ◌≡◌, refl, arith, true, some, List, ◌∷◌, ok, length, get_elem?,
  Option-cases, inl, inr, ◌⊎◌, All, ◌==◌, ==_iff,
}
use amt.Prelude.Bits.{all_below, all_below_sound}
use amt.Prelude.Bytes.{IsByte, byte_at}
use amt.Ecn.{
  EcnCodepoint, from_bits, bits, set_ip_ecn, validate_ipv4, validate_ipv6, write_ipv4_ecn,
  write_ipv6_ecn,
}

-- A packet that has the first twelve bytes of a header.
pub data HasHeader : List ℕ → Type 0 where
  header :
      (b0 b1 b2 b3 b4 b5 b6 b7 b8 b9 b10 b11 : ℕ) (rest : List ℕ)
      → HasHeader (b0 ∷ b1 ∷ b2 ∷ b3 ∷ b4 ∷ b5 ∷ b6 ∷ b7 ∷ b8 ∷ b9 ∷ b10 ∷ b11 ∷ rest)

length-HasHeader : (packet : List ℕ) → 12 ≤ length packet → HasHeader packet
length-HasHeader (b0 ∷ b1 ∷ b2 ∷ b3 ∷ b4 ∷ b5 ∷ b6 ∷ b7 ∷ b8 ∷ b9 ∷ b10 ∷ b11 ∷ rest) h =
    header b0 b1 b2 b3 b4 b5 b6 b7 b8 b9 b10 b11 rest
length-HasHeader _ h = absurd (omega arith)

mark_ipv4_table :
    (e : EcnCodepoint)
    → all_below 256 (λ b. bits (from_bits (bit_or (bit_and b 0xfc) (bits e))) == bits e) ≡ true
unfolding all_below
mark_ipv4_table EcnCodepoint.not_ect = refl
mark_ipv4_table EcnCodepoint.ect1 = refl
mark_ipv4_table EcnCodepoint.ect0 = refl
mark_ipv4_table EcnCodepoint.ce = refl

mark_ipv6_table :
    (e : EcnCodepoint)
    → all_below 256 (λ b. bits (from_bits (bit_or (bit_and b 0xcf) (bits e * 16) / 16)) == bits e)
      ≡ true
unfolding all_below
mark_ipv6_table EcnCodepoint.not_ect = refl
mark_ipv6_table EcnCodepoint.ect1 = refl
mark_ipv6_table EcnCodepoint.ect0 = refl
mark_ipv6_table EcnCodepoint.ce = refl

pub bits_injective : (e f : EcnCodepoint) → bits e ≡ bits f → e ≡ f
bits_injective e f h = ground arith

mark_ipv4 : (b : ℕ) (e : EcnCodepoint) → b < 256 → from_bits (bit_or (bit_and b 0xfc) (bits e)) ≡ e
mark_ipv4 b e h =
    bits_injective _ e ((==_iff _ _).0 (all_below_sound 256 _ b h (mark_ipv4_table e)))

mark_ipv6 :
    (b : ℕ) (e : EcnCodepoint)
    → b < 256
    → from_bits (bit_or (bit_and b 0xcf) (bits e * 16) / 16) ≡ e
mark_ipv6 b e h =
    bits_injective _ e ((==_iff _ _).0 (all_below_sound 256 _ b h (mark_ipv6_table e)))

pub validate_ipv4-HasHeader :
    (packet : List ℕ) (n : ℕ) → validate_ipv4 packet ≡ ok n → HasHeader packet
unfolding validate_ipv4
validate_ipv4-HasHeader packet n h = length-HasHeader packet (ground arith)

pub validate_ipv6-HasHeader : (packet : List ℕ) → validate_ipv6 packet ≡ ok tt → HasHeader packet
unfolding validate_ipv6
validate_ipv6-HasHeader packet h = length-HasHeader packet (ground arith)

-- The rewritten IPv4 packet has the header's length field and version it had.
pub write_ipv4_ecn-validate :
    (packet : List ℕ) (e : EcnCodepoint) (n : ℕ)
    → HasHeader packet
    → validate_ipv4 (write_ipv4_ecn packet e n) ≡ validate_ipv4 packet
unfolding write_ipv4_ecn validate_ipv4
write_ipv4_ecn-validate packet e n (header b0 b1 b2 b3 b4 b5 b6 b7 b8 b9 b10 b11 rest) = refl

pub write_ipv6_ecn-validate :
    (packet : List ℕ) (e : EcnCodepoint)
    → HasHeader packet
    → validate_ipv6 (write_ipv6_ecn packet e) ≡ validate_ipv6 packet
unfolding write_ipv6_ecn validate_ipv6
write_ipv6_ecn-validate packet e (header b0 b1 b2 b3 b4 b5 b6 b7 b8 b9 b10 b11 rest) = refl

pub long_header :
    (packet : List ℕ) (n : ℕ)
    → validate_ipv4 packet ≡ ok n
    → n ≡ suc (suc (suc (suc (suc (suc (suc (suc (suc (suc (suc (suc (n - 12))))))))))))
unfolding validate_ipv4
long_header packet n h = ground arith

-- The first byte is kept.
pub write_ipv4_ecn-first :
    (packet : List ℕ) (e : EcnCodepoint) (n : ℕ)
    → HasHeader packet
    → get_elem? (write_ipv4_ecn packet e n) 0 ≡ get_elem? packet 0
unfolding write_ipv4_ecn
write_ipv4_ecn-first packet e n (header b0 b1 b2 b3 b4 b5 b6 b7 b8 b9 b10 b11 rest) = refl

pub write_ipv6_ecn-first :
    (packet : List ℕ) (e : EcnCodepoint)
    → HasHeader packet
    → get_elem? (write_ipv6_ecn packet e) 0 ≡ get_elem? packet 0
unfolding write_ipv6_ecn
write_ipv6_ecn-first packet e (header b0 b1 b2 b3 b4 b5 b6 b7 b8 b9 b10 b11 rest) = refl

-- The second byte holds the codepoint written.
pub write_ipv4_ecn-from_bits :
    (packet : List ℕ) (e : EcnCodepoint) (n : ℕ)
    → HasHeader packet
    → All IsByte packet
    → from_bits (byte_at (write_ipv4_ecn packet e n) 1) ≡ e
unfolding write_ipv4_ecn
write_ipv4_ecn-from_bits packet e n (header b0 b1 b2 b3 b4 b5 b6 b7 b8 b9 b10 b11 rest) h =
    mark_ipv4 b1 e h.1.0

pub write_ipv6_ecn-from_bits :
    (packet : List ℕ) (e : EcnCodepoint)
    → HasHeader packet
    → All IsByte packet
    → from_bits (byte_at (write_ipv6_ecn packet e) 1 / 16) ≡ e
unfolding write_ipv6_ecn
write_ipv6_ecn-from_bits packet e (header b0 b1 b2 b3 b4 b5 b6 b7 b8 b9 b10 b11 rest) h =
    mark_ipv6 b1 e h.1.0

-- What a packet is that `set_ip_ecn` wrote, and what was written.
abbrev AsIpv4 : List ℕ → EcnCodepoint → List ℕ → Type 0
AsIpv4 packet e written =
    (first : ℕ) × (n : ℕ) × (get_elem? packet 0 ≡ some first)
    × (first / 16 ≡ 4)
    × (validate_ipv4 packet ≡ ok n)
    × (written ≡ write_ipv4_ecn packet e n)

abbrev AsIpv6 : List ℕ → EcnCodepoint → List ℕ → Type 0
AsIpv6 packet e written =
    (first : ℕ) × (get_elem? packet 0 ≡ some first)
    × (first / 16 ≡ 6)
    × (validate_ipv6 packet ≡ ok tt)
    × (written ≡ write_ipv6_ecn packet e)

pub set_ip_ecn-eq-ok :
    (packet : List ℕ) (e : EcnCodepoint) (written : List ℕ)
    → set_ip_ecn packet e ≡ ok written
    → AsIpv4 packet e written ⊎ AsIpv6 packet e written
unfolding set_ip_ecn
set_ip_ecn-eq-ok packet e written h = elim (Option-cases (get_elem? packet 0)) [
  | inl at ↦ absurd (ground arith)
  | inr (first, at) ↦ ground arith
]
