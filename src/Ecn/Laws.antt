-- ===== src/Ecn/Laws.antt =====
-- What the ECN field of a packet is after `set_ip_ecn` and `decapsulate_ecn`.
use Prim.Native.Nat.{bit_and, bit_or}
use amt.Prelude.{
  ℕ, suc, ◌-◌, ◌/◌, ◌<◌, ◌≡◌, refl, ap, sym, ◌∙◌, Bool-cases, arith, true, none, some, List, [],
  ◌∷◌, ok, get_elem?, inl, inr, ◌⊎◌, ◌↔◌, All, take, ◌==◌, ==_iff, >>=-eq-ok,
}
use amt.Prelude.Bits.{all_below, all_below_sound}
use amt.Prelude.Bytes.{IsByte, byte_at}
use amt.Checksum.Laws.{checksum_verifies}
use amt.Prelude.{ltb, ltb→lt, All-take}
use amt.Checksum.{ones_complement_sum}
use amt.Ecn.{
  EcnCodepoint, EcnDecapsulation, bits, decapsulation_result, ip_ecn, set_ip_ecn, decapsulate_ecn,
  validate_ipv4, write_ipv4_ecn, write_output,
}
use amt.Ecn.Writes.{
  HasHeader, bits_injective, validate_ipv4-HasHeader, validate_ipv6-HasHeader,
  write_ipv4_ecn-validate, write_ipv6_ecn-validate, long_header, write_ipv4_ecn-first,
  write_ipv6_ecn-first, write_ipv4_ecn-from_bits, write_ipv6_ecn-from_bits, set_ip_ecn-eq-ok,
  header,
}

-- A packet that `set_ip_ecn` wrote has the codepoint asked for.
pub set_ip_ecn-ip_ecn :
    (packet : List ℕ) (e : EcnCodepoint) (written : List ℕ)
    → All IsByte packet
    → set_ip_ecn packet e ≡ ok written
    → ip_ecn written ≡ ok e
unfolding ip_ecn
set_ip_ecn-ip_ecn packet e written hb h = elim (set_ip_ecn-eq-ok packet e written h) [
  | inl (first, n, at, four, valid, w) ↦
      (let hh = validate_ipv4-HasHeader packet n valid in
        ground (
          arith,
          write_ipv4_ecn-validate packet e n hh,
          write_ipv4_ecn-first packet e n hh,
          write_ipv4_ecn-from_bits packet e n hh hb,
        ))
  | inr (first, at, six, valid, w) ↦
      (let hh = validate_ipv6-HasHeader packet valid in
        ground (
          arith,
          write_ipv6_ecn-validate packet e hh,
          write_ipv6_ecn-first packet e hh,
          write_ipv6_ecn-from_bits packet e hh hb,
        ))
]

write_output-ip_ecn :
    (packet : List ℕ) (inner o : EcnCodepoint) (written : List ℕ)
    → All IsByte packet
    → ip_ecn packet ≡ ok inner
    → write_output packet inner (some o) ≡ ok written
    → ip_ecn written ≡ ok o
unfolding write_output
write_output-ip_ecn packet inner o written hb hi h = elim (Bool-cases (bits o == bits inner)) [
  | inl e ↦
      (let same : written ≡ packet = ground arith in
        rw same (hi ∙ ap ok (sym (bits_injective o inner ((==_iff _ _).0 e)))))
  | inr e ↦ set_ip_ecn-ip_ecn packet o written hb (ground arith)
]

-- A decapsulation that succeeds, step by step.
decapsulate_ecn-eq-ok :
    (packet : List ℕ) (outer : EcnCodepoint) (written : List ℕ) (r : EcnDecapsulation)
    → decapsulate_ecn packet outer ≡ ok (written, r)
    → (inner : EcnCodepoint) × (ip_ecn packet ≡ ok inner)
      × (write_output packet inner (decapsulation_result inner outer).0 ≡ ok written)
      × (r.output ≡ (decapsulation_result inner outer).0)
unfolding decapsulate_ecn
decapsulate_ecn-eq-ok packet outer written r h =
    let (inner, read, rest) = >>=-eq-ok (ip_ecn packet) _ h in
    let (w, write, same) =
      >>=-eq-ok (write_output packet inner (decapsulation_result inner outer).0) _ rest in
    (inner, read, cc, cc)

-- Where decapsulation of a packet of bytes yields an output, the packet it leaves has that codepoint in its ECN field,
-- and still reads as a valid IP packet.
pub decapsulate_ecn-ip_ecn :
    (packet : List ℕ) (outer : EcnCodepoint) (written : List ℕ) (r : EcnDecapsulation)
    (o : EcnCodepoint)
    → All IsByte packet
    → decapsulate_ecn packet outer ≡ ok (written, r)
    → r.output ≡ some o
    → ip_ecn written ≡ ok o
decapsulate_ecn-ip_ecn packet outer written r o hb h e =
    let (inner, read, write, out) = decapsulate_ecn-eq-ok packet outer written r h in
    write_output-ip_ecn packet inner o written hb read
      (ap (write_output packet inner) (sym e ∙ out) ∙ write)

dropped_iff :
    (inner outer : EcnCodepoint)
    → ((decapsulation_result inner outer).0 ≡ none)
      ↔ ((inner ≡ EcnCodepoint.not_ect) × (outer ≡ EcnCodepoint.ce))
dropped_iff inner outer = ground arith

congested :
    (inner outer : EcnCodepoint)
    → (inner ≡ EcnCodepoint.ce) ⊎ (outer ≡ EcnCodepoint.ce)
    → ((decapsulation_result inner outer).0 ≡ none)
      ⊎ ((decapsulation_result inner outer).0 ≡ some EcnCodepoint.ce)
congested inner outer h = ground arith

-- Congestion is not lost. A decapsulated packet of bytes is dropped exactly where it is not ECN-capable and
-- the outer header says CE, and is then unchanged; and where either header says CE, the packet is
-- dropped or is left with CE in its ECN field.
pub decapsulate_ecn-congestion :
    (packet : List ℕ) (outer : EcnCodepoint) (written : List ℕ) (r : EcnDecapsulation)
    (inner : EcnCodepoint)
    → All IsByte packet
    → ip_ecn packet ≡ ok inner
    → decapsulate_ecn packet outer ≡ ok (written, r)
    → ((r.output ≡ none) ↔ ((inner ≡ EcnCodepoint.not_ect) × (outer ≡ EcnCodepoint.ce)))
      × (r.output ≡ none → written ≡ packet)
      × ((inner ≡ EcnCodepoint.ce) ⊎ (outer ≡ EcnCodepoint.ce)
          → (r.output ≡ none) ⊎ (ip_ecn written ≡ ok EcnCodepoint.ce))
unfolding write_output
decapsulate_ecn-congestion packet outer written r inner hb hi h =
    let (i, read, write, out) = decapsulate_ecn-eq-ok packet outer written r h in
    let same : inner ≡ i = cc in
    let (to, from) = dropped_iff i outer in
    (
      rw same ((λ e. to (sym out ∙ e)), λ e. out ∙ from e),
      (λ e. cc),
      λ (e : (inner ≡ EcnCodepoint.ce) ⊎ (outer ≡ EcnCodepoint.ce)).
          elim (congested i outer (ground (arith, same, e))) [
            | inl dropped ↦ inl (out ∙ dropped)
            | inr marked ↦ inr (
                write_output-ip_ecn packet i EcnCodepoint.ce written hb read
                  (ap (write_output packet i) (sym marked) ∙ write))
          ],
    )

mark_ipv4_byte_table :
    (e : EcnCodepoint) → all_below 256 (λ b. ltb (bit_or (bit_and b 0xfc) (bits e)) 256) ≡ true
unfolding all_below
mark_ipv4_byte_table EcnCodepoint.not_ect = refl
mark_ipv4_byte_table EcnCodepoint.ect1 = refl
mark_ipv4_byte_table EcnCodepoint.ect0 = refl
mark_ipv4_byte_table EcnCodepoint.ce = refl

mark_ipv4-IsByte : (b : ℕ) (e : EcnCodepoint) → b < 256 → IsByte (bit_or (bit_and b 0xfc) (bits e))
mark_ipv4-IsByte b e h = ltb→lt _ 256 (all_below_sound 256 _ b h (mark_ipv4_byte_table e))

write_ipv4_ecn-checksum :
    (packet : List ℕ) (e : EcnCodepoint) (n k : ℕ)
    → HasHeader packet
    → All IsByte packet
    → n ≡ suc (suc (suc (suc (suc (suc (suc (suc (suc (suc (suc (suc k)))))))))))
    → ones_complement_sum (take n (write_ipv4_ecn packet e n)) ≡ 0xffff
unfolding write_ipv4_ecn
write_ipv4_ecn-checksum packet e n k (header b0 b1 b2 b3 b4 b5 b6 b7 b8 b9 b10 b11 rest)
      (h0, (h1, (h2, (h3, (h4, (h5, (h6, (h7, (h8, (h9, (h10, (h11, h)))))))))))) long =
    rw long (
      checksum_verifies
        (b0 ∷ bit_or (bit_and b1 0xfc) (bits e) ∷ b2 ∷ b3 ∷ b4 ∷ b5 ∷ b6 ∷ b7 ∷ b8 ∷ b9 ∷ [])
        (take k rest) tt
        (h0, (mark_ipv4-IsByte b1 e h1, (h2, (h3, (h4, (h5, (h6, (h7, (h8, (h9, tt))))))))))
        (All-take IsByte k rest h))

first_byte :
    (packet : List ℕ) (first : ℕ) → get_elem? packet 0 ≡ some first → byte_at packet 0 ≡ first
first_byte [] first h = cc
first_byte (b ∷ packet) first h = cc

-- The header of an IPv4 packet of bytes that `set_ip_ecn` writes verifies: its one's complement sum
-- is 0xffff.
pub set_ip_ecn-checksum :
    (packet : List ℕ) (e : EcnCodepoint) (written : List ℕ) (header_len : ℕ)
    → All IsByte packet
    → byte_at packet 0 / 16 ≡ 4
    → validate_ipv4 packet ≡ ok header_len
    → set_ip_ecn packet e ≡ ok written
    → ones_complement_sum (take header_len written) ≡ 0xffff
set_ip_ecn-checksum packet e written header_len hb hv valid h =
    elim (set_ip_ecn-eq-ok packet e written h) [
      | inl (first, n, at, four, valid', w) ↦
          (let same : header_len ≡ n = cc in
            rw (w, same)
              (write_ipv4_ecn-checksum packet e n (n - 12) (validate_ipv4-HasHeader packet n valid')
                hb (long_header packet n valid')))
      | inr (first, at, six, valid', w) ↦
          absurd (omega (arith, first_byte packet first at, hv, six))
    ]
