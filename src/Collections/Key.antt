-- ===== src/Collections/Key.antt =====
-- What the collections need of their keys: Rust's `Ord` and `Eq` as Boolean tests, with their laws.
use amt.Prelude.{◌≡◌, refl, arith, Bool, true, false, ◌↔◌, ◌&&◌, ◌||◌, ltb}
use amt.Address.{IpAddr, v4, v6, ip_eq, ip_lt, SocketAddr, socket_eq}

pub record Key {ℓ} (K : Type ℓ) : Type ℓ where
  pub eq : K → K → Bool
  pub lt : K → K → Bool
  pub eq_iff : (a b : K) → (eq a b ≡ true) ↔ (a ≡ b)
  pub lt_irrefl : (a : K) → lt a a ≡ false
  pub lt_trans : (a b c : K) → lt a b ≡ true → lt b c ≡ true → lt a c ≡ true
  pub lt_total : (a b : K) → eq a b ≡ false → lt a b ≡ false → lt b a ≡ true

pub ip_eq_iff : (a b : IpAddr) → (ip_eq a b ≡ true) ↔ (a ≡ b)
ip_eq_iff (v4 a) (v4 b) = ground arith
ip_eq_iff (v4 a) (v6 b) = ground arith
ip_eq_iff (v6 a) (v4 b) = ground arith
ip_eq_iff (v6 a) (v6 b) = ground arith

pub ip_lt_irrefl : (a : IpAddr) → ip_lt a a ≡ false
ip_lt_irrefl (v4 a) = ground arith
ip_lt_irrefl (v6 a) = ground arith

pub ip_lt_trans : (a b c : IpAddr) → ip_lt a b ≡ true → ip_lt b c ≡ true → ip_lt a c ≡ true
ip_lt_trans a b c h k = ground arith

pub ip_lt_total : (a b : IpAddr) → ip_eq a b ≡ false → ip_lt a b ≡ false → ip_lt b a ≡ true
ip_lt_total a b h k = ground arith

instance abbrev pub ip_key : Key IpAddr
ip_key = record {
  eq = ip_eq;
  lt = ip_lt;
  eq_iff = ip_eq_iff;
  lt_irrefl = ip_lt_irrefl;
  lt_trans = ip_lt_trans;
  lt_total = ip_lt_total;
}

-- By address, then by port; the addresses of one family stand together.
abbrev pub socket_lt : SocketAddr → SocketAddr → Bool
socket_lt a b = ip_lt a.ip b.ip || (ip_eq a.ip b.ip && ltb a.port b.port)

pub socket_eq_iff : (a b : SocketAddr) → (socket_eq a b ≡ true) ↔ (a ≡ b)
socket_eq_iff a b = ground (arith, ip_eq_iff a.ip b.ip)

pub socket_lt_irrefl : (a : SocketAddr) → socket_lt a a ≡ false
socket_lt_irrefl a = ground (arith, ip_lt_irrefl a.ip)

pub socket_lt_trans :
    (a b c : SocketAddr) → socket_lt a b ≡ true → socket_lt b c ≡ true → socket_lt a c ≡ true
socket_lt_trans a b c h k = ground arith

pub socket_lt_total :
    (a b : SocketAddr) → socket_eq a b ≡ false → socket_lt a b ≡ false → socket_lt b a ≡ true
socket_lt_total a b h k = ground arith

instance abbrev pub socket_key : Key SocketAddr
socket_key = record {
  eq = socket_eq;
  lt = socket_lt;
  eq_iff = socket_eq_iff;
  lt_irrefl = socket_lt_irrefl;
  lt_trans = socket_lt_trans;
  lt_total = socket_lt_total;
}

module _ {ℓ} {K : Type ℓ} ⦃k : Key K⦄ where
  -- Equal keys are interchangeable on either side of a test.
  pub eq_right : (a b c : K) → k.eq a b ≡ true → k.eq c a ≡ k.eq c b
  eq_right a b c h = rw ((k.eq_iff a b).0 h)

  pub eq_left : (a b c : K) → k.eq a b ≡ true → k.eq a c ≡ k.eq b c
  eq_left a b c h = rw ((k.eq_iff a b).0 h)

  pub lt_right : (a b c : K) → k.eq a b ≡ true → k.lt c a ≡ k.lt c b
  lt_right a b c h = rw ((k.eq_iff a b).0 h)

  pub eq_refl : (a : K) → k.eq a a ≡ true
  eq_refl a = (k.eq_iff a a).1 refl

  pub lt-ne : (a b : K) → k.lt a b ≡ true → k.eq a b ≡ false
  lt-ne a b h = ground (arith, k.lt_irrefl a, lt_right b a a, k.eq_iff a b, k.eq_iff b a)
