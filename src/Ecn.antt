-- ===== src/Ecn.antt =====
-- ecn.rs: the ECN field of an embedded packet and RFC 6040's decapsulation. A packet is its list
-- of bytes, and a function that writes to it also returns the bytes it leaves; 4 and 6 are the
-- version nibbles.
pub mod Writes
pub mod Laws
mod Tests
use Prim.Native.Nat.{bit_and, bit_or}
use amt.Prelude.{
  ℕ, zero, suc, ◌+◌, ◌-◌, ◌*◌, ◌/◌, ◌%◌, ◌^◌, Bool, true, false, Option, none, some, List, [], ◌∷◌,
  ◌++◌, Result, ok, err, guard, ok_or, ◌>>=◌, ◌>>◌, length, get_elem?, set, take, drop, ltb, ◌==◌,
  if◌then◌else◌, not, ◌||◌,
}
use amt.Prelude.Bytes.{byte_at, slice, from_be, to_be}
use amt.Checksum.{checksum}

pub data EcnCodepoint : Type 0 where
  not_ect : EcnCodepoint
  ect1 : EcnCodepoint
  ect0 : EcnCodepoint
  ce : EcnCodepoint

-- `match bits & 0b11`.
abbrev pub from_bits : ℕ → EcnCodepoint
from_bits bits =
    let field = bit_and bits 3 in
    if field == 1
    then EcnCodepoint.ect1
    else if field == 2
    then EcnCodepoint.ect0
    else if field == 3
    then EcnCodepoint.ce
    else EcnCodepoint.not_ect

abbrev pub bits : EcnCodepoint → ℕ
bits EcnCodepoint.not_ect = 0
bits EcnCodepoint.ect1 = 1
bits EcnCodepoint.ect0 = 2
bits EcnCodepoint.ce = 3

pub record EcnDecapsulation : Type 0 where
  pub inner : EcnCodepoint
  pub outer : EcnCodepoint
  pub output : Option EcnCodepoint
  pub currently_unused : Bool

abbrev pub is_drop : EcnDecapsulation → Bool
is_drop r = elim r.output [ none ↦ true | some o ↦ false ]

abbrev pub changed : EcnDecapsulation → Bool
changed r = elim r.output [ none ↦ false | some o ↦ not (bits o == bits r.inner) ]

pub data EcnError : Type 0 where
  truncated : EcnError
  unsupported_version : ℕ → EcnError
  invalid_header : EcnError
  invalid_length : EcnError

-- The header's length.
unfoldable pub validate_ipv4 : List ℕ → Result EcnError ℕ
validate_ipv4 packet =
    if ltb (length packet) 20
    then err EcnError.truncated
    else (let header_len = bit_and (byte_at packet 0) 0x0f * 4 in
        if ltb header_len 20 || ltb (length packet) header_len
        then err EcnError.invalid_header
        else (let total_len = from_be (slice packet 2 4) in
            if ltb total_len header_len || not (total_len == length packet)
            then err EcnError.invalid_length
            else ok header_len))

unfoldable pub validate_ipv6 : List ℕ → Result EcnError (Unit {0})
validate_ipv6 packet =
    if ltb (length packet) 40
    then err EcnError.truncated
    else if 40 + from_be (slice packet 4 6) == length packet
    then ok tt
    else err EcnError.invalid_length

unfoldable pub ip_ecn : List ℕ → Result EcnError EcnCodepoint
unfolding validate_ipv4 validate_ipv6
ip_ecn packet = do
  first ← ok_or (get_elem? packet 0) EcnError.truncated
  let version = first / 16
  if version == 4
      then (validate_ipv4 packet >>= λ header_len. ok (from_bits (byte_at packet 1)))
      else if version == 6
      then (validate_ipv6 packet >>= λ u. ok (from_bits (byte_at packet 1 / 16)))
      else err (EcnError.unsupported_version version)

abbrev pub decapsulation_result : EcnCodepoint → EcnCodepoint → Option EcnCodepoint × Bool
decapsulation_result EcnCodepoint.not_ect EcnCodepoint.ce = (none, true)
decapsulation_result EcnCodepoint.not_ect EcnCodepoint.not_ect = (some EcnCodepoint.not_ect, false)
decapsulation_result EcnCodepoint.not_ect EcnCodepoint.ect0 = (some EcnCodepoint.not_ect, true)
decapsulation_result EcnCodepoint.not_ect EcnCodepoint.ect1 = (some EcnCodepoint.not_ect, true)
decapsulation_result EcnCodepoint.ect0 EcnCodepoint.not_ect = (some EcnCodepoint.ect0, false)
decapsulation_result EcnCodepoint.ect0 EcnCodepoint.ect0 = (some EcnCodepoint.ect0, false)
decapsulation_result EcnCodepoint.ect0 EcnCodepoint.ect1 = (some EcnCodepoint.ect1, false)
decapsulation_result EcnCodepoint.ect0 EcnCodepoint.ce = (some EcnCodepoint.ce, false)
decapsulation_result EcnCodepoint.ect1 EcnCodepoint.not_ect = (some EcnCodepoint.ect1, false)
decapsulation_result EcnCodepoint.ect1 EcnCodepoint.ect1 = (some EcnCodepoint.ect1, false)
decapsulation_result EcnCodepoint.ect1 EcnCodepoint.ect0 = (some EcnCodepoint.ect1, true)
decapsulation_result EcnCodepoint.ect1 EcnCodepoint.ce = (some EcnCodepoint.ce, false)
decapsulation_result EcnCodepoint.ce EcnCodepoint.ect1 = (some EcnCodepoint.ce, true)
decapsulation_result EcnCodepoint.ce EcnCodepoint.not_ect = (some EcnCodepoint.ce, false)
decapsulation_result EcnCodepoint.ce EcnCodepoint.ect0 = (some EcnCodepoint.ce, false)
decapsulation_result EcnCodepoint.ce EcnCodepoint.ce = (some EcnCodepoint.ce, false)

-- `packet[10..12]`, overwritten.
abbrev pub put_checksum : List ℕ → List ℕ → List ℕ
put_checksum packet value = take 10 packet ++ (value ++ drop 12 packet)

-- The writes of `set_ip_ecn`: `packet[1] & !0b11` on a byte is `& 0xfc`, and
-- `& !0b0011_0000` is `& 0xcf`.
unfoldable pub write_ipv4_ecn : List ℕ → EcnCodepoint → ℕ → List ℕ
write_ipv4_ecn packet ecn header_len =
    let marked = set packet 1 (bit_or (bit_and (byte_at packet 1) 0xfc) (bits ecn)) in
    let cleared = put_checksum marked (0 ∷ 0 ∷ []) in
    let header_checksum = checksum (take header_len cleared) in
    put_checksum cleared (to_be 2 header_checksum)

unfoldable pub write_ipv6_ecn : List ℕ → EcnCodepoint → List ℕ
write_ipv6_ecn packet ecn = set packet 1 (bit_or (bit_and (byte_at packet 1) 0xcf) (bits ecn * 16))

unfoldable pub set_ip_ecn : List ℕ → EcnCodepoint → Result EcnError (List ℕ)
unfolding validate_ipv4 validate_ipv6 write_ipv4_ecn write_ipv6_ecn
set_ip_ecn packet ecn = do
  first ← ok_or (get_elem? packet 0) EcnError.truncated
  let version = first / 16
  if version == 4
      then (validate_ipv4 packet >>= λ header_len. ok (write_ipv4_ecn packet ecn header_len))
      else if version == 6
      then (validate_ipv6 packet >>= λ u. ok (write_ipv6_ecn packet ecn))
      else err (EcnError.unsupported_version version)

-- The packet as it is left: rewritten where the output is another codepoint than the inner one.
unfoldable pub write_output : List ℕ → EcnCodepoint → Option EcnCodepoint → Result EcnError (List ℕ)
unfolding set_ip_ecn
write_output packet inner none = ok packet
write_output packet inner (some output) =
    if not (bits output == bits inner) then set_ip_ecn packet output else ok packet

unfoldable pub decapsulate_ecn : List ℕ → EcnCodepoint → Result EcnError (List ℕ × EcnDecapsulation)
unfolding ip_ecn write_output
decapsulate_ecn packet outer = do
  inner ← ip_ecn packet
  let r = decapsulation_result inner outer
  written ← write_output packet inner r.0
  ok (written, record { inner = inner; outer = outer; output = r.0; currently_unused = r.1 })
