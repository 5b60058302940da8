-- ===== src/Daemon/Fits.antt =====
-- What goes through a tunnel fits the path.
use Prim.Native.Nat.{bit_and}
use amt.Prelude.{
  ℕ, ◌+◌, ◌*◌, ◌≤◌, ◌≡◌, refl, ◌∙◌, arith, Bool-cases, Result-cases, inl, inr, List, [], ◌∷◌, ok,
  length, All, drop, map, get_elem?,
}
use amt.Prelude.Bytes.{byte_at}
use amt.Address.{SocketAddr}
use amt.Checksum.Laws.{concat}
use amt.Mtu.{fragment_ipv4_for_tunnel}
use amt.Mtu.Laws.{fragment_ipv4_for_tunnel-payload}
use amt.Protocol.{Message}
use amt.Protocol.Codec.{encode, decode}
use amt.Protocol.RoundTrip.{data_round_trip}
use amt.Daemon.Tunnel.{
  packets, is_version_4, tunnel_datagram, prepare_oversized_tunnel_data, outer_ip_header,
  tunnel_mtu,
}

-- What holds of a datagram on a path of the given MTU.
abbrev pub IsTunnelDatagram : ℕ → SocketAddr → List ℕ → Type 0
IsTunnelDatagram path_mtu endpoint datagram =
    (outer_ip_header endpoint.ip + 8 + length datagram ≤ path_mtu)
    × (decode datagram ≡ ok (Message.multicast_data (drop 2 datagram)))

tunnel_datagram-drop : (fragment : List ℕ) → drop 2 (tunnel_datagram fragment) ≡ fragment
unfolding encode
tunnel_datagram-drop fragment = refl

tunnel_datagram-length :
    (fragment : List ℕ) → length (tunnel_datagram fragment) ≡ 2 + length fragment
unfolding encode
tunnel_datagram-length fragment = omega arith

datagrams-payload :
    (n : ℕ) (fragments : List (List ℕ))
    → concat (map (λ datagram. drop n (drop 2 datagram)) (map tunnel_datagram fragments))
      ≡ concat (map (drop n) fragments)
datagrams-payload n [] = refl
datagrams-payload n (fragment ∷ fragments) =
    rw (tunnel_datagram-drop fragment, datagrams-payload n fragments) refl

datagrams-IsTunnelDatagram :
    (path_mtu : ℕ) (endpoint : SocketAddr) (fragments : List (List ℕ))
    → outer_ip_header endpoint.ip + 10 ≤ path_mtu
    → All (λ g. length g ≤ tunnel_mtu path_mtu endpoint) fragments
    → All (IsTunnelDatagram path_mtu endpoint) (map tunnel_datagram fragments)
unfolding tunnel_mtu
datagrams-IsTunnelDatagram path_mtu endpoint [] room fits = tt
datagrams-IsTunnelDatagram path_mtu endpoint (fragment ∷ fragments) room fits = (
  (
    omega (arith, room, fits.0, tunnel_datagram-length fragment),
    rw (tunnel_datagram-drop fragment) (data_round_trip fragment),
  ),
  datagrams-IsTunnelDatagram path_mtu endpoint fragments room fits.1,
)

-- Where the path has room for the headers of the tunnel, every datagram that an oversized packet is
-- sent in fits the path's MTU with its outer headers and decodes to multicast data, and the payloads
-- behind the headers of what the datagrams carry are, in order, the payload of the packet.
pub prepare_oversized_tunnel_data-fits :
    (packet : List ℕ) (path_mtu : ℕ) (endpoint : SocketAddr) (datagrams : List (List ℕ))
    → outer_ip_header endpoint.ip + 10 ≤ path_mtu
    → prepare_oversized_tunnel_data packet (tunnel_mtu path_mtu endpoint) ≡ packets datagrams
    → All (IsTunnelDatagram path_mtu endpoint) datagrams
      × (let header_len = bit_and (byte_at packet 0) 0x0f * 4 in
          concat (map (λ datagram. drop header_len (drop 2 datagram)) datagrams)
          ≡ drop header_len packet)
unfolding prepare_oversized_tunnel_data
prepare_oversized_tunnel_data-fits packet path_mtu endpoint datagrams room e =
    let mtu = tunnel_mtu path_mtu endpoint in
    let header_len = bit_and (byte_at packet 0) 0x0f * 4 in
    elim (Bool-cases (is_version_4 (get_elem? packet 0))) [
      | inr other ↦ absurd (let gone = rw other at e in cc)
      | inl version ↦ elim (Result-cases (fragment_ipv4_for_tunnel packet mtu)) [
        | inr (failure, c) ↦ absurd (let gone = rw (version, c) at e in cc)
        | inl (fragments, c) ↦
            (let same : datagrams ≡ map tunnel_datagram fragments =
                let built = rw (version, c) at e in cc in
              let (payload, fits) = fragment_ipv4_for_tunnel-payload packet mtu fragments c in
              rw same (
                datagrams-IsTunnelDatagram path_mtu endpoint fragments room fits,
                datagrams-payload header_len fragments ∙ payload,
              ))
      ]
    ]
