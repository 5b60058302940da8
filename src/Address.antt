-- ===== src/Address.antt =====
-- The address types of the Rust standard library that the program uses (std::net): an address is
-- the number that its octets spell, and its octets are that number in big-endian order. The flow
-- information and the scope of an IPv6 socket address are taken to be 0, as `SocketAddr::new`
-- makes them.
use amt.Prelude.{ℕ, ◌/◌, ◌^◌, ◌<◌, Bool, true, false, ◌&&◌, List, ltb, leb, ◌==◌, ℕ_discrete}
use amt.Prelude.Bytes.{to_be}

pub data IpAddr : Type 0 where
  v4 v6 : ℕ → IpAddr

unfoldable pub IpAddr-discrete : Discrete IpAddr
unfolding ℕ_discrete
IpAddr-discrete = hlevel ℕ_discrete

abbrev pub ip_eq : IpAddr → IpAddr → Bool
ip_eq (v4 a) (v4 b) = a == b
ip_eq (v6 a) (v6 b) = a == b
ip_eq _ _ = false

-- The derived order: every IPv4 address stands before every IPv6 address.
abbrev pub ip_lt : IpAddr → IpAddr → Bool
ip_lt (v4 a) (v4 b) = ltb a b
ip_lt (v4 a) (v6 b) = true
ip_lt (v6 a) (v4 b) = false
ip_lt (v6 a) (v6 b) = ltb a b

abbrev pub octets : IpAddr → List ℕ
octets (v4 a) = to_be 4 a
octets (v6 a) = to_be 16 a

-- Within 32 or 128 bits.
abbrev pub IsIp : IpAddr → Type 0
IsIp (v4 a) = a < 2 ^ 32
IsIp (v6 a) = a < 2 ^ 128

abbrev pub same_family : IpAddr → IpAddr → Bool
same_family (v4 a) (v4 b) = true
same_family (v6 a) (v6 b) = true
same_family _ _ = false

unfoldable pub is_multicast : IpAddr → Bool
is_multicast (v4 a) = leb 224 (a / 2 ^ 24) && leb (a / 2 ^ 24) 239
is_multicast (v6 a) = a / 2 ^ 120 == 255

unfoldable pub is_unspecified : IpAddr → Bool
is_unspecified (v4 a) = a == 0
is_unspecified (v6 a) = a == 0

-- Only IPv4 has a broadcast address.
unfoldable pub is_broadcast : IpAddr → Bool
is_broadcast (v4 a) = a == 0xffff_ffff
is_broadcast (v6 a) = false

pub record SocketAddr : Type 0 where
  pub ip : IpAddr
  pub port : ℕ

abbrev pub socket_eq : SocketAddr → SocketAddr → Bool
socket_eq a b = ip_eq a.ip b.ip && a.port == b.port
