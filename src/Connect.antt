-- ===== src/Connect.antt =====
-- The CONNECT proxy of src/bridge.rs: the hosts that it may connect to, and the resolved addresses
-- that it refuses. Octets, segments and ports are numbers below 2 ^ 8, 2 ^ 16 and 2 ^ 16.
pub mod Blocks
pub mod Embedded
pub mod Native
pub mod Hosts
pub mod Request
pub mod Handle
mod Tests
use Prim.Native.Nat.{bit_and, bit_xor}
use mathlib.Core.List.{reverse}
use arapuca.Prelude.{
  ℕ, ◌+◌, ◌/◌, ◌%◌, Bool, true, false, not, ◌&&◌, ◌||◌, Option, none, some, List, [], ◌∷◌, ltb, leb,
  ◌==◌, if◌then◌else◌, Bytes, beq, starts_with,
}

pub record Ipv4Addr : Type 0 where
  pub o0 : ℕ
  pub o1 : ℕ
  pub o2 : ℕ
  pub o3 : ℕ

abbrev pub ipv4 : ℕ → ℕ → ℕ → ℕ → Ipv4Addr
ipv4 a b c d = record { o0 = a; o1 = b; o2 = c; o3 = d }

pub record Ipv6Addr : Type 0 where
  pub s0 : ℕ
  pub s1 : ℕ
  pub s2 : ℕ
  pub s3 : ℕ
  pub s4 : ℕ
  pub s5 : ℕ
  pub s6 : ℕ
  pub s7 : ℕ

pub data IpAddr : Type 0 where
  v4 : Ipv4Addr → IpAddr
  v6 : Ipv6Addr → IpAddr

-- The tests of `std::net::Ipv4Addr`.
abbrev pub is_loopback : Ipv4Addr → Bool
is_loopback ip = ip.o0 == 127

abbrev pub is_private : Ipv4Addr → Bool
is_private ip =
    ip.o0 == 10
    || (ip.o0 == 172 && (leb 16 ip.o1 && leb ip.o1 31))
    || (ip.o0 == 192 && ip.o1 == 168)

abbrev pub is_link_local : Ipv4Addr → Bool
is_link_local ip = ip.o0 == 169 && ip.o1 == 254

abbrev pub is_broadcast : Ipv4Addr → Bool
is_broadcast ip = ip.o0 == 255 && (ip.o1 == 255 && (ip.o2 == 255 && ip.o3 == 255))

abbrev pub is_unspecified : Ipv4Addr → Bool
is_unspecified ip = ip.o0 == 0 && (ip.o1 == 0 && (ip.o2 == 0 && ip.o3 == 0))

unfoldable pub is_safe_ipv4 : Ipv4Addr → Bool
is_safe_ipv4 ip =
    not (is_loopback ip)
    && not (is_private ip)
    && not (is_link_local ip)
    && not (is_broadcast ip)
    && not (is_unspecified ip)
    && not (ip.o0 == 0)
    && not (ip.o0 == 100 && (leb 64 ip.o1 && leb ip.o1 127))
    && not (ip.o0 == 198 && (leb 18 ip.o1 && leb ip.o1 19))
    && ltb ip.o0 240

-- `(hi >> 8) as u8, hi as u8, (lo >> 8) as u8, lo as u8`.
abbrev pub from_segments : ℕ → ℕ → Ipv4Addr
from_segments hi lo = ipv4 (hi / 256 % 256) (hi % 256) (lo / 256 % 256) (lo % 256)

-- `Ipv6Addr::to_ipv4`: the mapped and the compatible addresses.
unfoldable pub to_ipv4 : Ipv6Addr → Option Ipv4Addr
to_ipv4 ip =
    if ip.s0 == 0
      && (ip.s1 == 0
          && (ip.s2 == 0 && (ip.s3 == 0 && (ip.s4 == 0 && (ip.s5 == 0 || ip.s5 == 0xffff)))))
    then some (from_segments ip.s6 ip.s7)
    else none

unfoldable pub nat64_embedded_ipv4 : Ipv6Addr → Option Ipv4Addr
nat64_embedded_ipv4 ip =
    if ip.s0 == 0x64
      && (ip.s1 == 0xff9b && (ip.s2 == 0 && (ip.s3 == 0 && (ip.s4 == 0 && ip.s5 == 0))))
    then some (from_segments ip.s6 ip.s7)
    else none

unfoldable pub is_nat64_local : Ipv6Addr → Bool
is_nat64_local ip = ip.s0 == 0x64 && (ip.s1 == 0xff9b && ip.s2 == 1)

unfoldable pub sixto4_embedded_ipv4 : Ipv6Addr → Option Ipv4Addr
sixto4_embedded_ipv4 ip = if ip.s0 == 0x2002 then some (from_segments ip.s1 ip.s2) else none

unfoldable pub teredo_embedded_ipv4 : Ipv6Addr → Option Ipv4Addr
teredo_embedded_ipv4 ip =
    if ip.s0 == 0x2001 && ip.s1 == 0
    then some (
        ipv4 (bit_xor (ip.s6 / 256 % 256) 0xff) (bit_xor (ip.s6 % 256) 0xff)
          (bit_xor (ip.s7 / 256 % 256) 0xff) (bit_xor (ip.s7 % 256) 0xff))
    else none

abbrev pub is_ipv6_link_local : Ipv6Addr → Bool
is_ipv6_link_local ip = bit_and ip.s0 0xffc0 == 0xfe80

abbrev pub is_ipv6_unique_local : Ipv6Addr → Bool
is_ipv6_unique_local ip = bit_and ip.s0 0xfe00 == 0xfc00

-- `Ipv6Addr::is_loopback` and `is_unspecified`: the address is 1, or 0.
abbrev pub ipv6_is : ℕ → Ipv6Addr → Bool
ipv6_is n ip =
    ip.s0 == 0
    && (ip.s1 == 0
        && (ip.s2 == 0
            && (ip.s3 == 0 && (ip.s4 == 0 && (ip.s5 == 0 && (ip.s6 == 0 && ip.s7 == n))))))

-- The tests of an address that embeds no other.
unfoldable pub is_safe_native : Ipv6Addr → Bool
is_safe_native ip =
    not (ipv6_is 1 ip)
    && not (ipv6_is 0 ip)
    && not (is_ipv6_link_local ip)
    && not (is_ipv6_unique_local ip)

-- `if let Some(v4) = … { return is_safe_ipv4(&v4); }`, and what follows it.
unfoldable pub judged_or : Option Ipv4Addr → Bool → Bool
judged_or none rest = rest
judged_or (some ip) rest = is_safe_ipv4 ip

unfoldable pub is_safe_resolved_ip : IpAddr → Bool
is_safe_resolved_ip (v4 ip) = is_safe_ipv4 ip
is_safe_resolved_ip (v6 ip) = judged_or (to_ipv4 ip) (
    judged_or (nat64_embedded_ipv4 ip) (
      if is_nat64_local ip
      then false
      else judged_or (sixto4_embedded_ipv4 ip)
          (judged_or (teredo_embedded_ipv4 ip) (is_safe_native ip))))

pub record AllowedHost : Type 0 where
  pub host : Bytes
  pub port : ℕ

-- `str::ends_with`.
unfoldable pub ends_with : Bytes → Bytes → Bool
ends_with suffix s = starts_with (reverse suffix) (reverse s)

-- The rule against a host: a rule that begins with a dot is a suffix, and names its domain too.
unfoldable pub host_matches : Bytes → Bytes → Bool
host_matches [] host = beq [] host
host_matches (c ∷ rest) host =
    if c == b'.' then ends_with (c ∷ rest) host || beq host rest else beq (c ∷ rest) host

unfoldable pub matches : AllowedHost → Bytes → ℕ → Bool
matches rule host port = if rule.port == port then host_matches rule.host host else false
