-- ===== src/Daemon.antt =====
-- daemon.rs: what the relay's daemon decides about datagrams and idle gateways. Sockets, metrics and
-- the texts that it prints are not modelled.
pub mod Tunnel
pub mod Desired
pub mod Configured
pub mod Control
pub mod Fits
pub mod Accepted
mod Tests
