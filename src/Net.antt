-- ===== src/Net.antt =====
-- `std::net::IpAddr`: an address is its number, and an IPv4 address its four octets.
use oxde.Prelude.{ℕ, ◌≡◌, ◌↔◌, Bool, true, false, ◌&&◌, arith, ◌==◌, Key}

pub record Ipv4Addr : Type 0 where
  pub a : ℕ
  pub b : ℕ
  pub c : ℕ
  pub d : ℕ

pub data IpAddr : Type 0 where
  v4 : Ipv4Addr → IpAddr
  v6 : (bits : ℕ) → IpAddr

abbrev pub ip_eq : IpAddr → IpAddr → Bool
ip_eq (v4 x) (v4 y) = x.a == y.a && x.b == y.b && x.c == y.c && x.d == y.d
ip_eq (v6 x) (v6 y) = x == y
ip_eq (v4 x) (v6 y) = false
ip_eq (v6 x) (v4 y) = false

pub ip_eq_iff : (x y : IpAddr) → (ip_eq x y ≡ true) ↔ (x ≡ y)
ip_eq_iff (v4 x) (v4 y) = ground arith
ip_eq_iff (v6 x) (v6 y) = ground arith
ip_eq_iff (v4 x) (v6 y) = (λ h. cc, λ h. cc)
ip_eq_iff (v6 x) (v4 y) = (λ h. cc, λ h. cc)

instance abbrev pub ip_addr_key : Key IpAddr
ip_addr_key = record { same_key = ip_eq; same_iff = ip_eq_iff }
