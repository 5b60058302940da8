-- ===== src/Daemon/Tests.antt =====
-- A packet of 36 bytes on a path whose MTU leaves 28 for it, and a relay whose upstream worker takes
-- no subscription.
use amt.Prelude.{
  ℕ, ◌≡◌, ◌⊎◌, ◌*◌, refl, arith, Bool, true, List, [], ◌∷◌, length, All, drop, map, ◌==◌,
}
use Prim.Native.Nat.{bit_and}
use amt.Prelude.Bytes.{byte_at}
use amt.Checksum.{checksum}
use amt.Checksum.Laws.{concat}
use amt.Mtu.{fragment_ipv4_for_tunnel}
use amt.Mtu.Tests.{packet, first_fragment, second_fragment}
use amt.Protocol.Codec.{encode}
use amt.State.{UpstreamSubscription}
use amt.Relay.Tests.{host, relay, peer, drawn, update}
use amt.Daemon.Tunnel.{packets, prepare_oversized_tunnel_data, tunnel_mtu}
use amt.Daemon.Fits.{IsTunnelDatagram, prepare_oversized_tunnel_data-fits}
use amt.Daemon.Control.{handle_amt_datagram}
use amt.Daemon.Desired.{GatewayJoin, configured_joins_report}
use amt.Daemon.Configured.{configured_joins_report-is_joined}
use amt.LocalMembership.Reports.{reported}
use amt.State.Interest.{wants, wants_source}
use amt.Protocol.{igmpv3}
use amt.Prelude.{false}
use amt.Collections.BTreeMap.{get}
use amt.Prelude.{some, none}
use amt.Address.{v4}
use amt.Collections.Key.{ip_key}
use amt.Daemon.Accepted.{handle_amt_datagram-accepted}

abbrev datagrams : List (List ℕ)
datagrams = (6 ∷ 0 ∷ first_fragment) ∷ (6 ∷ 0 ∷ second_fragment) ∷ []

packet_prepared : prepare_oversized_tunnel_data packet (tunnel_mtu 58 peer) ≡ packets datagrams
unfolding prepare_oversized_tunnel_data tunnel_mtu fragment_ipv4_for_tunnel checksum encode
packet_prepared = refl

prepare_oversized_tunnel_data-fits_example :
    All (IsTunnelDatagram 58 peer) datagrams
    × (concat
          (map (λ datagram. drop (bit_and (byte_at packet 0) 0x0f * 4) (drop 2 datagram)) datagrams)
        ≡ drop (bit_and (byte_at packet 0) 0x0f * 4) packet)
prepare_oversized_tunnel_data-fits_example =
    prepare_oversized_tunnel_data-fits packet 58 peer datagrams (ground arith) packet_prepared

abbrev takes_none : List UpstreamSubscription → Bool
takes_none subscriptions = length subscriptions == 0

handle_amt_datagram-accepted_example :
    (let next =
        (handle_amt_datagram takes_none host relay
          (record { last_seen = [] })
          20
          drawn
          peer
          update).relay in
      (next.state ≡ relay.state) ⊎ (takes_none next.state.subscriptions ≡ true))
handle_amt_datagram-accepted_example =
    handle_amt_datagram-accepted takes_none host relay (record { last_seen = [] }) 20 drawn peer
      update

abbrev joins : List GatewayJoin
joins =
    record { group = v4 0xe8000001; source = some (v4 7) }
    ∷ record { group = v4 0xe8000001; source = none }
    ∷ []

nothing_wanted : wants [] (v4 0xe8000001) (v4 9) ≡ false
unfolding get wants_source
nothing_wanted = refl

configured_joins_report-is_joined_example :
    wants
      (reported (configured_joins_report igmpv3 joins) (record { groups = [] })).groups
      (v4 0xe8000001)
      (v4 9)
    ≡ true
configured_joins_report-is_joined_example =
    configured_joins_report-is_joined igmpv3 joins (record { groups = [] }) (v4 0xe8000001) (v4 9)
      nothing_wanted
