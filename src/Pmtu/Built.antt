-- ===== src/Pmtu/Built.antt =====
-- What a feedback packet of pmtu.rs is.
use amt.Prelude.{ℕ, ◌+◌, ◌%◌, ◌^◌, ◌≤◌, ◌≡◌, List, [], ◌∷◌, ◌++◌, length, take, drop}
use amt.Prelude.Bytes.{slice, from_be, to_be}
use amt.Address.{IpAddr, v4, v6}
use amt.Checksum.{ones_complement_sum, icmpv6_checksum}

-- An ICMP message in IPv4 whose checksums verify, from the local address to the source, with the
-- MTU and as much of the packet as fits 576 bytes.
pub record IsIcmpv4Feedback (local source : ℕ) (invoking : List ℕ) (mtu : ℕ) (packet : List ℕ)
    : Type 0 where
  pub header : ones_complement_sum (take 20 packet) ≡ 0xffff
  pub message : ones_complement_sum (drop 20 packet) ≡ 0xffff
  pub total : from_be (slice packet 2 4) ≡ length packet
  pub fits : length packet ≤ 576
  pub from : from_be (slice packet 12 16) ≡ local
  pub to : from_be (slice packet 16 20) ≡ source
  pub next_hop : from_be (slice packet 26 28) ≡ mtu
  pub quote : drop 28 packet ≡ take 548 invoking

pub record IsIcmpv6Feedback (local source : ℕ) (invoking : List ℕ) (mtu : ℕ) (packet : List ℕ)
    : Type 0 where
  pub message : icmpv6_checksum (slice packet 8 24) (slice packet 24 40) 58 (drop 40 packet) ≡ 0
  pub total : from_be (slice packet 4 6) + 40 ≡ length packet
  pub fits : length packet ≤ 1280
  pub from : from_be (slice packet 8 24) ≡ local
  pub to : from_be (slice packet 24 40) ≡ source
  pub next_hop : from_be (slice packet 44 48) ≡ mtu
  pub quote : drop 48 packet ≡ take 1232 invoking

-- The pseudo-header and the first bytes of the ICMPv6 message.
abbrev icmpv6_front : ℕ → ℕ → ℕ → List ℕ
icmpv6_front local source len =
    to_be 16 local ++ (to_be 16 source ++ (to_be 4 (len % 2 ^ 32) ++ (0 ∷ 0 ∷ 0 ∷ 58 ∷ 2 ∷ 0 ∷ [])))

-- The feedback for the family of its two addresses.
abbrev pub IsFeedback : IpAddr → IpAddr → List ℕ → ℕ → List ℕ → Type 0
IsFeedback (v4 local) (v4 source) invoking mtu packet =
    IsIcmpv4Feedback local source invoking mtu packet
IsFeedback (v6 local) (v6 source) invoking mtu packet =
    IsIcmpv6Feedback local source invoking mtu packet
IsFeedback local source invoking mtu packet = ⊥
