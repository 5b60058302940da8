-- ===== src/Ecn/Tests.antt =====
-- An IPv4 header without payload, marked ECT(0), that arrives in a tunnel packet marked CE.
use amt.Prelude.{ℕ, ◌≡◌, ◌↔◌, ◌⊎◌, refl, arith, false, none, some, List, [], ◌∷◌, ok, take, All}
use amt.Prelude.Bytes.{IsByte}
use amt.Checksum.{checksum, ones_complement_sum}
use amt.Ecn.{EcnCodepoint, EcnDecapsulation, ip_ecn, set_ip_ecn, decapsulate_ecn, validate_ipv4}
use amt.Ecn.Laws.{set_ip_ecn-checksum, decapsulate_ecn-ip_ecn, decapsulate_ecn-congestion}

abbrev packet : List ℕ
packet =
    0x45 ∷ 2 ∷ 0 ∷ 20 ∷ 0 ∷ 0 ∷ 0 ∷ 0 ∷ 64 ∷ 17 ∷ 0 ∷ 0 ∷ 192 ∷ 0 ∷ 2 ∷ 1 ∷ 232 ∷ 0 ∷ 0 ∷ 1 ∷ []

abbrev marked : List ℕ
marked =
    0x45 ∷ 3 ∷ 0 ∷ 20 ∷ 0 ∷ 0 ∷ 0 ∷ 0 ∷ 64 ∷ 17 ∷ 0xd0 ∷ 0xd3 ∷ 192 ∷ 0 ∷ 2 ∷ 1 ∷ 232 ∷ 0 ∷ 0 ∷ 1
    ∷ []

packet_bytes : All IsByte packet
packet_bytes = ground arith

abbrev result : EcnDecapsulation
result = record {
  inner = EcnCodepoint.ect0;
  outer = EcnCodepoint.ce;
  output = some EcnCodepoint.ce;
  currently_unused = false;
}

decapsulates : decapsulate_ecn packet EcnCodepoint.ce ≡ ok (marked, result)
unfolding decapsulate_ecn checksum
decapsulates = refl

reads : ip_ecn packet ≡ ok EcnCodepoint.ect0
unfolding ip_ecn
reads = refl

validates : validate_ipv4 packet ≡ ok 20
unfolding validate_ipv4
validates = refl

writes : set_ip_ecn packet EcnCodepoint.ce ≡ ok marked
unfolding set_ip_ecn checksum
writes = refl

set_ip_ecn-checksum_example : ones_complement_sum (take 20 marked) ≡ 0xffff
set_ip_ecn-checksum_example =
    set_ip_ecn-checksum packet EcnCodepoint.ce marked 20 packet_bytes refl validates writes

decapsulate_ecn-ip_ecn_example : ip_ecn marked ≡ ok EcnCodepoint.ce
decapsulate_ecn-ip_ecn_example =
    decapsulate_ecn-ip_ecn packet EcnCodepoint.ce marked result EcnCodepoint.ce packet_bytes
      decapsulates refl

decapsulate_ecn-congestion_example :
    ((result.output ≡ none)
      ↔ ((EcnCodepoint.ect0 ≡ EcnCodepoint.not_ect) × (EcnCodepoint.ce ≡ EcnCodepoint.ce)))
    × (result.output ≡ none → marked ≡ packet)
    × ((EcnCodepoint.ect0 ≡ EcnCodepoint.ce) ⊎ (EcnCodepoint.ce ≡ EcnCodepoint.ce)
        → (result.output ≡ none) ⊎ (ip_ecn marked ≡ ok EcnCodepoint.ce))
decapsulate_ecn-congestion_example =
    decapsulate_ecn-congestion packet EcnCodepoint.ce marked result EcnCodepoint.ect0 packet_bytes
      reads decapsulates
