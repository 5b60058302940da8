-- ===== src/Mtu.antt =====
-- mtu.rs: the fragmentation of an IPv4 packet that is larger than the tunnel's MTU. The loop over
-- the payload is recursion on a fuel that starts as its length: each round takes 8 bytes or more.
pub mod Laws
pub mod Tests
use Prim.Native.Nat.{bit_and, bit_or}
use amt.Prelude.{
  ℕ, zero, suc, ◌+◌, ◌-◌, ◌*◌, ◌/◌, ◌%◌, ◌^◌, Bool, true, false, not, ◌&&◌, ◌||◌, Option, none,
  some, List, [], ◌∷◌, ◌++◌, Result, ok, err, guard, ok_or, ◌>>=◌, ◌>>◌, length, take, drop, ltb,
  leb, ◌==◌, if◌then◌else◌,
}
use amt.Prelude.Bytes.{byte_at, slice, from_be, to_be}
use amt.Checksum.{checksum}

pub data Ipv4FragmentError : Type 0 where
  invalid_packet dont_fragment header_options mtu_too_small : Ipv4FragmentError
  fragment_offset_overflow : Ipv4FragmentError

-- What the fragments share.
pub record Fragmentation : Type 0 where
  pub header : List ℕ
  pub max_payload : ℕ
  pub base_offset : ℕ
  pub preserve_more_fragments : Bool
  pub reserved : ℕ

abbrev pub bit : Bool → ℕ
bit false = 0
bit true = 1

abbrev pub is_empty {ℓ} : {A : Type ℓ} → List A → Bool
is_empty [] = true
is_empty (x ∷ xs) = false

-- `bytes[at..at + 2]`, overwritten.
abbrev pub put_u16 : ℕ → List ℕ → List ℕ → List ℕ
put_u16 at value bytes = take at bytes ++ (value ++ drop (at + 2) bytes)

unfoldable pub fragment : Fragmentation → List ℕ → ℕ → Bool → List ℕ
fragment f chunk offset more_fragments =
    let fragment_len = length f.header + length chunk in
    let flags_offset = bit_or (bit_or f.reserved (bit more_fragments * 0x2000)) offset in
    let lengthened = put_u16 2 (to_be 2 (fragment_len % 2 ^ 16)) (f.header ++ chunk) in
    let flagged = put_u16 6 (to_be 2 flags_offset) lengthened in
    let cleared = put_u16 10 (0 ∷ 0 ∷ []) flagged in
    put_u16 10 (to_be 2 (checksum (take (length f.header) cleared))) cleared

unfoldable pub fragments_from :
    ℕ → Fragmentation → ℕ → List ℕ → Result Ipv4FragmentError (List (List ℕ))
unfolding fragment
fragments_from zero f chunk_start payload = ok []
fragments_from (suc n) f chunk_start [] = ok []
fragments_from (suc n) f chunk_start (b ∷ bytes) =
    let left = drop f.max_payload (b ∷ bytes) in
    let following = fragments_from n f (chunk_start + f.max_payload) left in
    let offset = f.base_offset + chunk_start / 8 in
    if leb offset 0x1fff
    then (following >>= λ fragments. ok (
        fragment f (take f.max_payload (b ∷ bytes)) offset
          (f.preserve_more_fragments || not (is_empty left))
        ∷ fragments))
    else err fragment_offset_overflow

abbrev pub fragmentation : List ℕ → ℕ → Fragmentation
fragmentation packet tunnel_mtu =
    let fragment_field = from_be (slice packet 6 8) in
    record {
      header = take 20 packet;
      max_payload = (tunnel_mtu - 20) / 8 * 8;
      base_offset = bit_and fragment_field 0x1fff;
      preserve_more_fragments = not (bit_and fragment_field 0x2000 == 0);
      reserved = bit_and fragment_field 0x8000;
    }

-- The packet is larger than the MTU, and its header has no options.
unfoldable pub fragment_payload : List ℕ → ℕ → Result Ipv4FragmentError (List (List ℕ))
unfolding fragments_from
fragment_payload packet tunnel_mtu = do
  let f = fragmentation packet tunnel_mtu
  let payload = drop 20 packet
  guard (bit_and (from_be (slice packet 6 8)) 0x4000 == 0) dont_fragment
  guard (leb 20 tunnel_mtu && leb 8 f.max_payload) mtu_too_small
  guard (not (is_empty payload || (f.preserve_more_fragments && not (length payload % 8 == 0))))
      invalid_packet
  guard (leb (f.base_offset * 8 + length payload) (0xffff - 20)) fragment_offset_overflow
  fragments_from (length payload) f 0 payload

unfoldable pub fragment_ipv4_for_tunnel : List ℕ → ℕ → Result Ipv4FragmentError (List (List ℕ))
unfolding fragment_payload
fragment_ipv4_for_tunnel packet tunnel_mtu = do
  guard (leb 20 (length packet) && byte_at packet 0 / 16 == 4) invalid_packet
  let header_len = bit_and (byte_at packet 0) 0x0f * 4
  guard (leb 20 header_len && leb header_len (length packet)) invalid_packet
  let total_len = from_be (slice packet 2 4)
  guard (total_len == length packet && leb header_len total_len) invalid_packet
  if leb total_len tunnel_mtu
      then ok (packet ∷ [])
      else if header_len == 20
      then fragment_payload packet tunnel_mtu
      else err header_options
