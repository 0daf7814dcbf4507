-- ===== src/Connect/Embedded.antt =====
-- IPv4 addresses inside IPv6 addresses, as src/bridge.rs judges them.
use Prim.Native.Nat.{bit_xor}
use arapuca.Prelude.{
  ℕ, ◌+◌, ◌-◌, ◌*◌, ◌/◌, ◌%◌, ◌<◌, ◌≡◌, refl, ap, ◌==◌, ==_iff, arith, holds_below_sound,
}
use arapuca.Connect.{
  Ipv6Addr, v6, ipv4, is_safe_ipv4, from_segments, to_ipv4, nat64_embedded_ipv4, is_nat64_local,
  sixto4_embedded_ipv4, teredo_embedded_ipv4, judged_or, is_safe_resolved_ip,
}

-- The ways to embed an IPv4 address that the standards name.
pub data Embedding : Type 0 where
  mapped compatible nat64 : Embedding
  -- 6to4, with the segments of its subnet and its interface
  sixto4 : (subnet i4 i5 i6 i7 : ℕ) → Embedding
  -- Teredo, with the segments of its server, its flags and its port
  teredo : (server0 server1 flags port : ℕ) → Embedding

-- The bits of an octet turned over.
abbrev pub turned : ℕ → ℕ
turned x = 255 - x

turned_back : (x : ℕ) → x < 256 → bit_xor (turned x) 0xff ≡ x
turned_back x h =
    (==_iff (bit_xor (turned x) 0xff) x).0
      (holds_below_sound (λ n. bit_xor (turned n) 0xff == n) 256 x refl h)

-- An address of eight segments, the first six from the way of embedding.
abbrev pub with_tail : (s0 s1 s2 s3 s4 s5 s6 s7 : ℕ) → Ipv6Addr
with_tail a b c d e f g h = record {
  s0 = a;
  s1 = b;
  s2 = c;
  s3 = d;
  s4 = e;
  s5 = f;
  s6 = g;
  s7 = h;
}

abbrev pub embed : Embedding → (a b c d : ℕ) → Ipv6Addr
embed mapped a b c d = with_tail 0 0 0 0 0 0xffff (a * 256 + b) (c * 256 + d)
embed compatible a b c d = with_tail 0 0 0 0 0 0 (a * 256 + b) (c * 256 + d)
embed nat64 a b c d = with_tail 0x64 0xff9b 0 0 0 0 (a * 256 + b) (c * 256 + d)
embed (sixto4 s x y z t) a b c d = with_tail 0x2002 (a * 256 + b) (c * 256 + d) s x y z t
embed (teredo x y f p) a b c d =
    with_tail 0x2001 0 x y f p (turned a * 256 + turned b) (turned c * 256 + turned d)

module _ (a b c d : ℕ) (ha : a < 256) (hb : b < 256) (hc : c < 256) (hd : d < 256) where
  octets : from_segments (a * 256 + b) (c * 256 + d) ≡ ipv4 a b c d
  octets =
      let e0 : (a * 256 + b) / 256 % 256 ≡ a = omega arith in
      let e1 : (a * 256 + b) % 256 ≡ b = omega arith in
      let e2 : (c * 256 + d) / 256 % 256 ≡ c = omega arith in
      let e3 : (c * 256 + d) % 256 ≡ d = omega arith in rw (e0, e1, e2, e3) refl

  -- An IPv6 address that embeds an IPv4 address, as a mapped or a compatible address, behind the
  -- NAT64 prefix 64:ff9b::/96, as a 6to4 address of any subnet and interface, or as a Teredo address
  -- of any server, flags and port, is safe exactly if the IPv4 address is.
  pub is_safe_resolved_ip-embed :
      (way : Embedding) → is_safe_resolved_ip (v6 (embed way a b c d)) ≡ is_safe_ipv4 (ipv4 a b c d)
  unfolding is_safe_resolved_ip judged_or to_ipv4 nat64_embedded_ipv4 is_nat64_local
      sixto4_embedded_ipv4 teredo_embedded_ipv4
  is_safe_resolved_ip-embed mapped = ap is_safe_ipv4 octets
  is_safe_resolved_ip-embed compatible = ap is_safe_ipv4 octets
  is_safe_resolved_ip-embed nat64 = ap is_safe_ipv4 octets
  is_safe_resolved_ip-embed (sixto4 s x y z t) = ap is_safe_ipv4 octets
  is_safe_resolved_ip-embed (teredo x y f p) =
      let e0 : (turned a * 256 + turned b) / 256 % 256 ≡ turned a = omega arith in
      let e1 : (turned a * 256 + turned b) % 256 ≡ turned b = omega arith in
      let e2 : (turned c * 256 + turned d) / 256 % 256 ≡ turned c = omega arith in
      let e3 : (turned c * 256 + turned d) % 256 ≡ turned d = omega arith in
      rw (e0, e1, e2, e3, turned_back a ha, turned_back b hb, turned_back c hc, turned_back d hd)
        refl
