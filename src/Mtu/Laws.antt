-- ===== src/Mtu/Laws.antt =====
-- The fragments of a packet carry its payload, and fit the tunnel.
use Prim.Native.Nat.{bit_and}
use amt.Prelude.{
  ℕ, zero, suc, ◌+◌, ◌*◌, ◌/◌, ◌≤◌, ◌<◌, ◌≡◌, refl, ap, ◌∙◌, arith, Bool, not, ◌||◌, List, [], ◌∷◌,
  ◌++◌, map, ok, err, length, length-take, length-drop, All, take, drop, if◌then◌else◌, leb, leb→le,
  ◌==◌, ==_iff, Bool-cases, inl, inr, >>=-eq-ok,
}
use amt.Prelude.Bytes.{byte_at, slice, from_be}
use amt.Checksum.Laws.{concat}
use amt.Mtu.{
  Fragmentation, fragment, fragments_from, fragment_payload, fragmentation,
  fragment_ipv4_for_tunnel, header_options, is_empty,
}

-- Twenty bytes.
data IsHeader : List ℕ → Type 0 where
  header :
      (b0 b1 b2 b3 b4 b5 b6 b7 b8 b9 b10 b11 b12 b13 b14 b15 b16 b17 b18 b19 : ℕ)
      → IsHeader (
          b0 ∷ b1 ∷ b2 ∷ b3 ∷ b4 ∷ b5 ∷ b6 ∷ b7 ∷ b8 ∷ b9 ∷ b10 ∷ b11 ∷ b12 ∷ b13 ∷ b14 ∷ b15 ∷ b16
          ∷ b17 ∷ b18 ∷ b19 ∷ [])

take-IsHeader : (packet : List ℕ) → 20 ≤ length packet → IsHeader (take 20 packet)
take-IsHeader
      (b0 ∷ b1 ∷ b2 ∷ b3 ∷ b4 ∷ b5 ∷ b6 ∷ b7 ∷ b8 ∷ b9 ∷ b10 ∷ b11 ∷ b12 ∷ b13 ∷ b14 ∷ b15 ∷ b16
        ∷ b17 ∷ b18 ∷ b19 ∷ rest)
      h =
    header b0 b1 b2 b3 b4 b5 b6 b7 b8 b9 b10 b11 b12 b13 b14 b15 b16 b17 b18 b19
take-IsHeader _ h = absurd (omega arith)

fragment-chunk :
    (f : Fragmentation) (chunk : List ℕ) (offset : ℕ) (more : Bool) (hd : List ℕ)
    → IsHeader hd
    → f.header ≡ hd
    → (drop 20 (fragment f chunk offset more) ≡ chunk)
      × (length (fragment f chunk offset more) ≡ 20 + length chunk)
unfolding fragment
fragment-chunk f chunk offset more hd
      (header b0 b1 b2 b3 b4 b5 b6 b7 b8 b9 b10 b11 b12 b13 b14 b15 b16 b17 b18 b19) e =
    (rw e refl, rw e (omega arith))

take-append-drop : (n : ℕ) (xs : List ℕ) → take n xs ++ drop n xs ≡ xs
take-append-drop zero xs = refl
take-append-drop (suc n) [] = refl
take-append-drop (suc n) (x ∷ xs) = ap (◌∷◌ x) (take-append-drop n xs)

-- What the loop yields.
abbrev Carries : ℕ → List ℕ → List (List ℕ) → Type 0
Carries largest payload fragments =
    (concat (map (drop 20) fragments) ≡ payload) × All (λ g. length g ≤ 20 + largest) fragments

fragments_from-Carries :
    (n : ℕ) (f : Fragmentation) (chunk_start : ℕ) (payload : List ℕ) (fragments : List (List ℕ))
    → IsHeader f.header
    → 0 < f.max_payload
    → length payload ≤ n
    → fragments_from n f chunk_start payload ≡ ok fragments
    → Carries f.max_payload payload fragments
unfolding fragments_from
fragments_from-Carries zero f start [] gs hd pos h e =
    (let same : gs ≡ [] = cc in rw same (refl, tt))
fragments_from-Carries zero f start (b ∷ bytes) gs hd pos h e = absurd (omega arith)
fragments_from-Carries (suc n) f start [] gs hd pos h e =
    (let same : gs ≡ [] = cc in rw same (refl, tt))
fragments_from-Carries (suc n) f start (b ∷ bytes) gs hd pos h e =
    elim (Bool-cases (leb (f.base_offset + start / 8) 0x1fff)) [
      | inr ne ↦ cc (rw ne at e)
      | inl t ↦
          (let left = drop f.max_payload (b ∷ bytes) in
            let chunk = take f.max_payload (b ∷ bytes) in
            let more = f.preserve_more_fragments || not (is_empty left) in
            let (following, loop, last) =
              >>=-eq-ok (fragments_from n f (start + f.max_payload) left) _ (rw t at e) in
            let same : gs ≡ fragment f chunk (f.base_offset + start / 8) more ∷ following = cc in
            let (carried, small) =
              fragments_from-Carries n f (start + f.max_payload) left following hd pos
                (omega (arith, length-drop f.max_payload (b ∷ bytes))) loop in
            let (body, size) =
              fragment-chunk f chunk (f.base_offset + start / 8) more f.header hd refl in
            rw same (
              ap (◌++◌ (drop 20 (fragment f chunk (f.base_offset + start / 8) more))) carried
                  ∙ ap (λ (c : List ℕ). c ++ left) body
                  ∙ take-append-drop f.max_payload (b ∷ bytes),
              (omega (arith, size, length-take f.max_payload (b ∷ bytes)), small),
            ))
    ]

All-weaken :
    (n m : ℕ) (gs : List (List ℕ)) → n ≤ m → All (λ g. length g ≤ n) gs → All (λ g. length g ≤ m) gs
All-weaken n m [] h a = tt
All-weaken n m (g ∷ gs) h a = (omega (arith, a.0), All-weaken n m gs h a.1)

fragment_payload-eq-ok :
    (packet : List ℕ) (tunnel_mtu : ℕ) (fragments : List (List ℕ))
    → fragment_payload packet tunnel_mtu ≡ ok fragments
    → (20 ≤ tunnel_mtu)
      × (8 ≤ (fragmentation packet tunnel_mtu).max_payload)
      × (fragments_from
            (length (drop 20 packet))
            (fragmentation packet tunnel_mtu)
            0
            (drop 20 packet)
          ≡ ok fragments)
unfolding fragment_payload
fragment_payload-eq-ok packet tunnel_mtu fragments e = ground arith

fragment_payload-Carries :
    (packet : List ℕ) (tunnel_mtu : ℕ) (fragments : List (List ℕ))
    → 20 ≤ length packet
    → fragment_payload packet tunnel_mtu ≡ ok fragments
    → (concat (map (drop 20) fragments) ≡ drop 20 packet)
      × All (λ g. length g ≤ tunnel_mtu) fragments
fragment_payload-Carries packet tunnel_mtu fragments h e =
    let (large, some_payload, loop) = fragment_payload-eq-ok packet tunnel_mtu fragments e in
    let f = fragmentation packet tunnel_mtu in
    let (carried, small) =
      fragments_from-Carries (length (drop 20 packet)) f 0 (drop 20 packet) fragments
        (take-IsHeader packet h) (omega arith) (omega arith) loop in
    (carried, All-weaken (20 + f.max_payload) tunnel_mtu fragments (omega arith) small)

append-nil : (xs : List ℕ) → xs ++ [] ≡ xs
append-nil [] = refl
append-nil (x ∷ xs) = ap (◌∷◌ x) (append-nil xs)

fragment_ipv4_for_tunnel-guards :
    (packet : List ℕ) (tunnel_mtu : ℕ) (fragments : List (List ℕ))
    → fragment_ipv4_for_tunnel packet tunnel_mtu ≡ ok fragments
    → (20 ≤ length packet)
      × (from_be (slice packet 2 4) ≡ length packet)
      × ((if leb (from_be (slice packet 2 4)) tunnel_mtu
            then ok (packet ∷ [])
            else if bit_and (byte_at packet 0) 0x0f * 4 == 20
            then fragment_payload packet tunnel_mtu
            else err header_options)
          ≡ ok fragments)
unfolding fragment_ipv4_for_tunnel
fragment_ipv4_for_tunnel-guards packet tunnel_mtu fragments e = ground arith

-- What `fragment_ipv4_for_tunnel` returns fits the tunnel's MTU, and the payloads behind the headers
-- are, in order, the payload of the packet.
pub fragment_ipv4_for_tunnel-payload :
    (packet : List ℕ) (tunnel_mtu : ℕ) (fragments : List (List ℕ))
    → fragment_ipv4_for_tunnel packet tunnel_mtu ≡ ok fragments
    → (let header_len = bit_and (byte_at packet 0) 0x0f * 4 in
        concat (map (drop header_len) fragments) ≡ drop header_len packet)
      × All (λ g. length g ≤ tunnel_mtu) fragments
fragment_ipv4_for_tunnel-payload packet tunnel_mtu fragments e =
    let (long, total, rest) = fragment_ipv4_for_tunnel-guards packet tunnel_mtu fragments e in
    elim (Bool-cases (leb (from_be (slice packet 2 4)) tunnel_mtu)) [
      | inl fits ↦
          (let same : fragments ≡ packet ∷ [] = cc (rw fits at rest) in
            rw same (
              append-nil (drop (bit_and (byte_at packet 0) 0x0f * 4) packet),
              (omega (arith, total, leb→le _ tunnel_mtu fits), tt),
            ))
      | inr large ↦ elim (Bool-cases (bit_and (byte_at packet 0) 0x0f * 4 == 20)) [
        | inl plain ↦
            rw ((==_iff _ 20).0 plain) (
              fragment_payload-Carries packet tunnel_mtu fragments long (rw (large, plain) at rest))
        | inr options ↦ absurd (cc (rw (large, options) at rest))
      ]
    ]
