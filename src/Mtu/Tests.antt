-- ===== src/Mtu/Tests.antt =====
-- A packet of 36 bytes for a tunnel whose MTU is 28.
use Prim.Native.Nat.{bit_and}
use amt.Prelude.{ℕ, ◌≡◌, ◌≤◌, ◌*◌, refl, List, [], ◌∷◌, ok, length, All, drop, map}
use amt.Prelude.Bytes.{byte_at}
use amt.Checksum.{checksum}
use amt.Checksum.Laws.{concat}
use amt.Mtu.{fragment_ipv4_for_tunnel}
use amt.Mtu.Laws.{fragment_ipv4_for_tunnel-payload}

abbrev pub packet : List ℕ
packet =
    69 ∷ 0 ∷ 0 ∷ 36 ∷ 0 ∷ 1 ∷ 0 ∷ 0 ∷ 64 ∷ 17 ∷ 0 ∷ 0 ∷ 192 ∷ 0 ∷ 2 ∷ 1 ∷ 232 ∷ 0 ∷ 0 ∷ 1 ∷ 1 ∷ 2
    ∷ 3 ∷ 4 ∷ 5 ∷ 6 ∷ 7 ∷ 8 ∷ 9 ∷ 10 ∷ 11 ∷ 12 ∷ 13 ∷ 14 ∷ 15 ∷ 16 ∷ []

abbrev pub first_fragment : List ℕ
first_fragment =
    69 ∷ 0 ∷ 0 ∷ 28 ∷ 0 ∷ 1 ∷ 32 ∷ 0 ∷ 64 ∷ 17 ∷ 176 ∷ 205 ∷ 192 ∷ 0 ∷ 2 ∷ 1 ∷ 232 ∷ 0 ∷ 0 ∷ 1 ∷ 1
    ∷ 2 ∷ 3 ∷ 4 ∷ 5 ∷ 6 ∷ 7 ∷ 8 ∷ []

abbrev pub second_fragment : List ℕ
second_fragment =
    69 ∷ 0 ∷ 0 ∷ 28 ∷ 0 ∷ 1 ∷ 0 ∷ 1 ∷ 64 ∷ 17 ∷ 208 ∷ 204 ∷ 192 ∷ 0 ∷ 2 ∷ 1 ∷ 232 ∷ 0 ∷ 0 ∷ 1 ∷ 9
    ∷ 10 ∷ 11 ∷ 12 ∷ 13 ∷ 14 ∷ 15 ∷ 16 ∷ []

abbrev fragments : List (List ℕ)
fragments = first_fragment ∷ second_fragment ∷ []

splits : fragment_ipv4_for_tunnel packet 28 ≡ ok fragments
unfolding fragment_ipv4_for_tunnel checksum
splits = refl

fragment_ipv4_for_tunnel-payload_example :
    (concat (map (drop (bit_and (byte_at packet 0) 0x0f * 4)) fragments)
      ≡ drop (bit_and (byte_at packet 0) 0x0f * 4) packet)
    × All (λ g. length g ≤ 28) fragments
fragment_ipv4_for_tunnel-payload_example =
    fragment_ipv4_for_tunnel-payload packet 28 fragments splits
