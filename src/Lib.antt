-- ===== src/Lib.antt =====
-- Models of AMT, an implementation of Automatic Multicast Tunneling (RFC 7450): a relay forwards
-- multicast packets to gateways over unicast UDP, and gateways report the groups and sources that
-- they want.
--
-- The parts, and the files that model them:
--   * src/protocol.rs: Protocol.antt has the messages, Protocol/Codec.antt the encoder and the
--     decoder. A datagram is a list of numbers, which are below 256 where a theorem needs it.
--   * src/membership.rs: Membership.antt has the types of reports and errors, Membership/Checks.antt
--     the checks that building and parsing share, Membership/Build.antt the builder and
--     Membership/Parse.antt the parser of IGMPv3 and MLDv2 reports.
--   * src/state.rs: State.antt has the types, State/Interest.antt a record's effect on one endpoint,
--     State/Index.antt the indexes and the aggregate interest, State/Ops.antt the operations of
--     `RelayState`. A BTreeMap or BTreeSet is a sorted list (Collections/).
--   * src/relay.rs: Relay.antt has the types, Relay/Auth.antt the response MACs, the secrets and the
--     ECN capabilities, Relay/Handle.antt the handling of a datagram, which decodes by Protocol,
--     answers with messages and queries, parses reports by Membership, and applies them to State.
--     `prepare_datagram` returns the relay, which it may change before it fails, beside its result.
--   * src/gateway.rs: Gateway.antt has the types, Gateway/Discovery.antt the datagrams that start an
--     exchange, Gateway/Handle.antt the handling of a datagram, Gateway/Memberships.antt the reports
--     and the teardown that the gateway sends.
--   * Handshake.antt puts a gateway and a relay together over a network that delivers datagrams:
--     discovery, request, and the Membership Update that reaches the relay's state.
--   * src/local_membership.rs: LocalMembership.antt has the types, LocalMembership/Delta.antt the
--     records that tell what changed, LocalMembership/Manager.antt the manager of local reports,
--     which keeps them in a `RelayState` of its own.
--   * src/pmtu.rs: Pmtu.antt has the types, Pmtu/Limiter.antt the rate limiter, Pmtu/Feedback.antt
--     the feedback packets, Pmtu/Sender.antt when feedback is sent.
--   * src/driad.rs: Driad.antt has the types, Driad/Limiter.antt the limiter of DNS queries,
--     Driad/Names.antt how names are written and read, Driad/Response.antt the query and the check of
--     a response, Driad/Answers.antt the answers.
--   * src/daemon.rs: Daemon/Control.antt has the handling of a datagram around the relay's own, with
--     the upstream worker's answer to new subscriptions, and the pruning of idle gateways;
--     Daemon/Tunnel.antt how an oversized packet is sent through a gateway's tunnel;
--     Daemon/Desired.antt the report that the gateway's daemon asks for.
--   * src/mtu.rs: Mtu.antt; src/query.rs: Query.antt; src/ip.rs: Ip.antt; src/ecn.rs: Ecn.antt;
--     src/checksum.rs: Checksum.antt.
--   * Address.antt has the address types of std::net, and Prelude/ what all of them share.
--
-- A method that mutates its object returns the new one, and `Result` is a data type with bind.
-- Unsigned numbers are natural numbers, with `% 2 ^ w` where a sum wraps and the subtractions of the
-- source that saturate as they are. `usize` counts of elements are taken not to overflow. The
-- loops over header options go by their offset, as in the source, for one round more than there are
-- bytes, and give `none` when the rounds run out. The loop over the
-- payload to fragment recurses on a fuel that starts as the number of bytes, which is enough since
-- each round passes at least one; the loop over IPv6 extension headers recurses on the number of
-- rounds that the source allows, 16, and that over the labels of a name of DNS likewise, 128; all
-- other loops recurse on their list or on a count.
--
-- Parameters: HMAC-SHA256 (`Host.hmac`), the secrets and nonces that are drawn, the clock, which
-- is read once for each call, and the raw sockets of the multicast library: a list of what one
-- receives, functions that tell how sending went, and whether the upstream worker takes
-- subscriptions. The theorems assume nothing of them but what stands in their statements: those on
-- the handshake ask that digests have 32 bytes.
--
-- Not modelled: the sockets and the worker threads (src/udp.rs, src/downstream.rs,
-- src/upstream.rs, src/upstream_worker.rs), which move datagrams between these parts and the
-- network; the event loops of src/daemon.rs, its DRIAD tunnels and its rate limiter, which counts
-- in floating-point numbers; the command line and the configuration (src/main.rs, src/config.rs);
-- the metrics; the resolver of src/driad.rs, which sends the queries over sockets and orders the
-- relays that it finds; and the texts of errors.
pub mod Prelude
pub mod Address
pub mod Collections
pub mod Checksum
pub mod Ecn
pub mod Protocol
pub mod Membership
pub mod Ip
pub mod Gateway
pub mod Query
pub mod Mtu
pub mod State
pub mod Relay
pub mod Handshake
pub mod LocalMembership
pub mod Pmtu
pub mod Driad
pub mod Daemon
