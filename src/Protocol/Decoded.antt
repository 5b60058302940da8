-- ===== src/Protocol/Decoded.antt =====
-- What `decode` returns on any datagram, well formed or not.
use amt.Prelude.{
  ◌||◌, if◌then◌else◌, false, none, some, ==_iff, ltb, ℕ, ◌-◌, ◌/◌, ◌≤◌, ◌<◌, ◌≡◌, arith, ◌==◌,
  Bool-cases, >>=-eq-ok, >>=-eq-err, ◌⊎◌, inl, inr, bit_and, List, [], ◌∷◌, ok, err, length,
  length-drop, All, All-drop, drop,
}
use amt.Prelude.Bytes.{IsByte, byte_at, slice_fits, read_fits}
use amt.Prelude.Bits.{high_nibble, low_nibble}
use amt.Protocol.{
  Message, MessageType, IsMessage, DecodeError, truncated, unsupported_version,
  unknown_message_type, invalid_length,
}
use amt.Protocol.Codec.{decode, decode_body, encoded_len, from_nibble}

decode_body-IsMessage :
    (t : MessageType) (input : List ℕ) (m : Message)
    → All IsByte input
    → decode_body t input ≡ ok m
    → IsMessage m × (encoded_len m ≡ length input)
unfolding decode_body encoded_len
decode_body-IsMessage MessageType.relay_discovery input m h e =
    ground (arith, read_fits input 4 4 h)
decode_body-IsMessage MessageType.relay_advertisement input m h e =
    ground (arith, read_fits input 4 4 h, read_fits input 8 4 h, read_fits input 8 16 h)
decode_body-IsMessage MessageType.request input m h e = ground (arith, read_fits input 4 4 h)
decode_body-IsMessage MessageType.membership_query input m h e = ground (
  arith,
  read_fits input 8 4 h,
  slice_fits input 2 6 h,
  read_fits (drop (length input - 18) input) 0 2 (All-drop IsByte (length input - 18) input h),
  slice_fits (drop (length input - 18) input) 2 16 (All-drop IsByte (length input - 18) input h),
  length-drop (length input - 18) input,
  slice_fits input 12 (length input - 18 - 12) h,
  slice_fits input 12 (length input - 12) h,
)
decode_body-IsMessage MessageType.membership_update input m h e = ground (
  arith,
  read_fits input 8 4 h,
  slice_fits input 2 6 h,
  length-drop 12 input,
  All-drop IsByte 12 input h,
)
decode_body-IsMessage MessageType.multicast_data input m h e =
    ground (arith, length-drop 2 input, All-drop IsByte 2 input h)
decode_body-IsMessage MessageType.teardown input m h e = ground (
  arith,
  read_fits input 8 4 h,
  slice_fits input 2 6 h,
  read_fits (drop 12 input) 0 2 (All-drop IsByte 12 input h),
  slice_fits (drop 12 input) 2 16 (All-drop IsByte 12 input h),
  length-drop 12 input,
)

-- A message that `decode` returns for a datagram of bytes has fields of the Rust types, so that no
-- read ran short, and it takes up the whole datagram.
pub decode-IsMessage :
    (input : List ℕ) (m : Message)
    → All IsByte input
    → decode input ≡ ok m
    → IsMessage m × (encoded_len m ≡ length input)
unfolding decode
decode-IsMessage [] m h e = cc
decode-IsMessage (first ∷ rest) m h e = elim (Bool-cases (bit_and first 0xf0 / 16 == 0)) [
  | inl v ↦
      let (t, et, eb) =
        >>=-eq-ok (from_nibble (bit_and first 0x0f)) (λ t. decode_body t (first ∷ rest))
          (rw v at e) in
      decode_body-IsMessage t (first ∷ rest) m h eb
  | inr v ↦ cc (rw v at e)
]

-- The numbers of RFC 7450 for the types; the length up to which a datagram of each is cut off, where
-- a Membership Query with the G flag ends in a gateway's port and address; and the lengths from there
-- on that no message of the type has.
abbrev pub type_number : MessageType → ℕ
type_number MessageType.relay_discovery = 1
type_number MessageType.relay_advertisement = 2
type_number MessageType.request = 3
type_number MessageType.membership_query = 4
type_number MessageType.membership_update = 5
type_number MessageType.multicast_data = 6
type_number MessageType.teardown = 7

abbrev pub query_length : List ℕ → ℕ
query_length input = if ltb (length input) 12 || bit_and (byte_at input 1) 1 == 0 then 12 else 30

abbrev pub least_length : MessageType → List ℕ → ℕ
least_length MessageType.relay_discovery input = 8
least_length MessageType.relay_advertisement input = 8
least_length MessageType.request input = 8
least_length MessageType.membership_query input = query_length input
least_length MessageType.membership_update input = 12
least_length MessageType.multicast_data input = 2
least_length MessageType.teardown input = 30

abbrev pub IsWrongLength : MessageType → ℕ → Type 0
IsWrongLength MessageType.relay_discovery len = 8 < len
IsWrongLength MessageType.relay_advertisement len =
    (8 ≤ len) × ((len == 12) ≡ false) × ((len == 24) ≡ false)
IsWrongLength MessageType.request len = 8 < len
IsWrongLength MessageType.teardown len = 30 < len
IsWrongLength _ len = ⊥

-- What each error says of the datagram that caused it.
abbrev pub Fault : List ℕ → DecodeError → Type 0
Fault input (unsupported_version v) =
    (0 < length input) × (v ≡ byte_at input 0 / 16) × (0 < v) × (v < 16)
Fault input (unknown_message_type t) =
    (0 < length input) × (t ≡ byte_at input 0) × ((t ≡ 0) ⊎ ((7 < t) × (t < 16)))
Fault input (truncated none expected actual) = (length input ≡ 0) × (expected ≡ 1) × (actual ≡ 0)
Fault input (truncated (some t) expected actual) =
    (0 < length input)
    × (byte_at input 0 ≡ type_number t)
    × (actual ≡ length input)
    × (expected ≡ least_length t input)
    × (actual < expected)
Fault input (invalid_length t expected actual) =
    (byte_at input 0 ≡ type_number t) × (actual ≡ length input) × IsWrongLength t actual

-- The part of it that concerns the length, for a datagram whose type is `t`.
abbrev LengthFault : MessageType → List ℕ → DecodeError → Type 0
LengthFault t input (truncated (some t') expected actual) =
    (t' ≡ t) × (actual ≡ length input) × (expected ≡ least_length t input) × (actual < expected)
LengthFault t input (invalid_length t' expected actual) =
    (t' ≡ t) × (actual ≡ length input) × IsWrongLength t actual
LengthFault t input _ = ⊥

decode_body-LengthFault :
    (t : MessageType) (input : List ℕ) (e : DecodeError)
    → decode_body t input ≡ err e
    → LengthFault t input e
unfolding decode_body
decode_body-LengthFault MessageType.relay_discovery input e h = ground arith
decode_body-LengthFault MessageType.relay_advertisement input e h = ground arith
decode_body-LengthFault MessageType.request input e h = ground arith
decode_body-LengthFault MessageType.membership_query input e h =
    ground (arith, length-drop (length input - 18) input)
decode_body-LengthFault MessageType.membership_update input e h = ground arith
decode_body-LengthFault MessageType.multicast_data input e h = ground arith
decode_body-LengthFault MessageType.teardown input e h = ground arith

LengthFault-Fault :
    (t : MessageType) (input : List ℕ) (e : DecodeError)
    → 0 < length input
    → byte_at input 0 ≡ type_number t
    → LengthFault t input e
    → Fault input e
LengthFault-Fault t input (truncated none expected actual) some_byte typed f = absurd f
LengthFault-Fault t input (truncated (some t') expected actual) some_byte typed f =
    let (same, len, least, short) = f in rw same (some_byte, typed, len, least, short)
LengthFault-Fault t input (invalid_length t' expected actual) some_byte typed f =
    let (same, len, wrong) = f in rw same (typed, len, wrong)
LengthFault-Fault t input (unsupported_version v) some_byte typed f = absurd f
LengthFault-Fault t input (unknown_message_type v) some_byte typed f = absurd f

from_nibble-ok : (n : ℕ) (t : MessageType) → from_nibble n ≡ ok t → n ≡ type_number t
unfolding from_nibble
from_nibble-ok n t h = ground arith

from_nibble-err :
    (n : ℕ) (e : DecodeError)
    → from_nibble n ≡ err e
    → (e ≡ unknown_message_type n) × ((n ≡ 0) ⊎ (7 < n))
unfolding from_nibble
from_nibble-err n e h = ground arith

-- A datagram of bytes is refused only where it is empty, for a version that is not 0, for a type that
-- is not 1 to 7, or for its length. The error carries the offending version or type number, or the
-- type that the datagram's first byte names and the datagram's length; a length that is called cut
-- off lies under the one that the type requires, which the error carries, and any other length that
-- is refused is one that no message of the type has.
pub decode-Fault :
    (input : List ℕ) (e : DecodeError) → All IsByte input → decode input ≡ err e → Fault input e
unfolding decode
decode-Fault [] e h p = ground arith
decode-Fault (first ∷ rest) e h p = elim (Bool-cases (bit_and first 0xf0 / 16 == 0)) [
  | inr v ↦ ground (arith, high_nibble first h.0)
  | inl v ↦
      elim (>>=-eq-err (from_nibble (bit_and first 0x0f)) (λ t. decode_body t (first ∷ rest))
        (rw v at p)) [
          | inl q ↦ ground (
            arith,
            from_nibble-err (bit_and first 0x0f) e q,
            high_nibble first h.0,
            low_nibble first h.0,
          )
          | inr (t, et, q) ↦
              LengthFault-Fault t (first ∷ rest) e (omega arith)
                (omega (
                  arith,
                  from_nibble-ok (bit_and first 0x0f) t et,
                  low_nibble first h.0,
                  high_nibble first h.0,
                  (==_iff (bit_and first 0xf0 / 16) 0).0 v,
                ))
                (decode_body-LengthFault t (first ∷ rest) e q)
        ]
]
