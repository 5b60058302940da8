-- ===== src/Daemon/Tunnel.antt =====
-- How daemon.rs sends a packet through the tunnel of one gateway.
use amt.Prelude.{
  ℕ, ◌+◌, ◌-◌, ◌/◌, Bool, true, false, Option, none, some, List, Result, ok, err, map,
  if◌then◌else◌, get_elem?, ◌==◌,
}
use amt.Address.{IpAddr, v4, v6, SocketAddr}
use amt.Ecn.{EcnCodepoint, EcnError, not_ect, ip_ecn}
use amt.Mtu.{Ipv4FragmentError, dont_fragment, fragment_ipv4_for_tunnel}
use amt.Protocol.{Message}
use amt.Protocol.Codec.{encode}
use amt.Relay.{Relay}
use amt.Relay.Auth.{gateway_ecn_capable}

pub data PreparedTunnelData : Type 0 where
  packets : List (List ℕ) → PreparedTunnelData
  dropped : Ipv4FragmentError → PreparedTunnelData
  dropped_ipv6 : PreparedTunnelData

abbrev pub requires_pmtu_feedback : PreparedTunnelData → Bool
requires_pmtu_feedback (packets datagrams) = false
requires_pmtu_feedback (dropped dont_fragment) = true
requires_pmtu_feedback (dropped e) = false
requires_pmtu_feedback dropped_ipv6 = true

abbrev pub is_version_4 : Option ℕ → Bool
is_version_4 none = false
is_version_4 (some byte) = byte / 16 == 4

abbrev pub tunnel_datagram : List ℕ → List ℕ
tunnel_datagram fragment = encode (Message.multicast_data fragment)

abbrev pub prepared : Result Ipv4FragmentError (List (List ℕ)) → PreparedTunnelData
prepared (ok fragments) = packets (map tunnel_datagram fragments)
prepared (err e) = dropped e

unfoldable pub prepare_oversized_tunnel_data : List ℕ → ℕ → PreparedTunnelData
prepare_oversized_tunnel_data packet tunnel_mtu =
    if is_version_4 (get_elem? packet 0)
    then prepared (fragment_ipv4_for_tunnel packet tunnel_mtu)
    else dropped_ipv6

abbrev pub outer_ip_header : IpAddr → ℕ
outer_ip_header (v4 ip) = 20
outer_ip_header (v6 ip) = 40

unfoldable pub tunnel_mtu : ℕ → SocketAddr → ℕ
tunnel_mtu path_mtu endpoint = path_mtu - (outer_ip_header endpoint.ip + 8 + 2)

abbrev pub or_not_ect : Result EcnError EcnCodepoint → EcnCodepoint
or_not_ect (ok ecn) = ecn
or_not_ect (err e) = not_ect

unfoldable pub tunnel_ecn : Relay → ℕ → SocketAddr → List ℕ → EcnCodepoint × Bool
tunnel_ecn relay now endpoint packet =
    if gateway_ecn_capable relay now endpoint
    then (or_not_ect (ip_ecn packet), true)
    else (not_ect, false)
