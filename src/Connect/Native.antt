-- ===== src/Connect/Native.antt =====
-- IPv6 addresses that embed no IPv4 address, as src/bridge.rs judges them.
use Prim.Native.Nat.{bit_and}
use arapuca.Prelude.{
  ℕ, ◌*◌, ◌/◌, ◌^◌, ◌<◌, ◌≡◌, refl, ap, ◌∙◌, Bool, true, false, not, ◌&&◌, ◌||◌, none, ◌==◌, arith,
  zero, suc, List, [], ◌∷◌, ◌-◌, leb, if◌then◌else◌, any,
}
use arapuca.Prelude.Bits.{bit_and-double, bit_and-ones}
use arapuca.Connect.{
  Ipv6Addr, v6, to_ipv4, nat64_embedded_ipv4, is_nat64_local, sixto4_embedded_ipv4,
  teredo_embedded_ipv4, judged_or, ipv6_is, is_safe_native, is_safe_resolved_ip,
}

-- fe80::/10 and fc00::/7 hold the addresses whose first segment begins with these bits.
abbrev pub in_fe80 : ℕ → Bool
in_fe80 s = s / 2 ^ 6 == 0x3fa

abbrev pub in_fc00 : ℕ → Bool
in_fc00 s = s / 2 ^ 9 == 0x7e

masked_10 : (s : ℕ) → s < 2 ^ 16 → bit_and s 0xffc0 ≡ s / 2 ^ 6 * 64
masked_10 s h =
    bit_and-double s 0x7fe0
    ∙ ap (λ t. t * 2) (bit_and-double (s / 2) 0x3ff0)
    ∙ ap (λ t. t * 2 * 2) (bit_and-double (s / 2 / 2) 0x1ff8)
    ∙ ap (λ t. t * 2 * 2 * 2) (bit_and-double (s / 2 / 2 / 2) 0xffc)
    ∙ ap (λ t. t * 2 * 2 * 2 * 2) (bit_and-double (s / 2 / 2 / 2 / 2) 0x7fe)
    ∙ ap (λ t. t * 2 * 2 * 2 * 2 * 2) (bit_and-double (s / 2 / 2 / 2 / 2 / 2) 0x3ff)
    ∙ ap (λ t. t * 2 * 2 * 2 * 2 * 2 * 2)
        (bit_and-ones 10 (s / 2 / 2 / 2 / 2 / 2 / 2) (omega arith))
    ∙ omega arith

masked_7 : (s : ℕ) → s < 2 ^ 16 → bit_and s 0xfe00 ≡ s / 2 ^ 9 * 512
masked_7 s h =
    bit_and-double s 0x7f00
    ∙ ap (λ t. t * 2) (bit_and-double (s / 2) 0x3f80)
    ∙ ap (λ t. t * 2 * 2) (bit_and-double (s / 2 / 2) 0x1fc0)
    ∙ ap (λ t. t * 2 * 2 * 2) (bit_and-double (s / 2 / 2 / 2) 0xfe0)
    ∙ ap (λ t. t * 2 * 2 * 2 * 2) (bit_and-double (s / 2 / 2 / 2 / 2) 0x7f0)
    ∙ ap (λ t. t * 2 * 2 * 2 * 2 * 2) (bit_and-double (s / 2 / 2 / 2 / 2 / 2) 0x3f8)
    ∙ ap (λ t. t * 2 * 2 * 2 * 2 * 2 * 2) (bit_and-double (s / 2 / 2 / 2 / 2 / 2 / 2) 0x1fc)
    ∙ ap (λ t. t * 2 * 2 * 2 * 2 * 2 * 2 * 2) (bit_and-double (s / 2 / 2 / 2 / 2 / 2 / 2 / 2) 0xfe)
    ∙ ap (λ t. t * 2 * 2 * 2 * 2 * 2 * 2 * 2 * 2)
        (bit_and-double (s / 2 / 2 / 2 / 2 / 2 / 2 / 2 / 2) 0x7f)
    ∙ ap (λ t. t * 2 * 2 * 2 * 2 * 2 * 2 * 2 * 2 * 2)
        (bit_and-ones 7 (s / 2 / 2 / 2 / 2 / 2 / 2 / 2 / 2 / 2) (omega arith))
    ∙ omega arith

test_10 : (s : ℕ) → s < 2 ^ 16 → (bit_and s 0xffc0 == 0xfe80) ≡ in_fe80 s
test_10 s h = ap (λ t. t == 0xfe80) (masked_10 s h) ∙ ground arith

test_7 : (s : ℕ) → s < 2 ^ 16 → (bit_and s 0xfe00 == 0xfc00) ≡ in_fc00 s
test_7 s h = ap (λ t. t == 0xfc00) (masked_7 s h) ∙ ground arith

-- A network in CIDR notation: the segments of its prefix, and the prefix's length in bits.
pub record Network : Type 0 where
  pub prefix : List ℕ
  pub len : ℕ

abbrev pub network : List ℕ → ℕ → Network
network p n = record { prefix = p; len = n }

-- Whether two lists of segments of 16 bits agree in their first bits.
abbrev pub agree : (len : ℕ) → List ℕ → List ℕ → Bool
agree zero xs ys = true
agree (suc n) (x ∷ xs) (y ∷ ys) =
    if leb 16 (suc n)
    then x == y && agree (suc n - 16) xs ys
    else x / 2 ^ (16 - suc n) == y / 2 ^ (16 - suc n)
agree (suc n) [] ys = false
agree (suc n) (x ∷ xs) [] = false

abbrev pub segments : Ipv6Addr → List ℕ
segments ip = ip.s0 ∷ ip.s1 ∷ ip.s2 ∷ ip.s3 ∷ ip.s4 ∷ ip.s5 ∷ ip.s6 ∷ ip.s7 ∷ []

abbrev pub is_in : Ipv6Addr → Network → Bool
is_in ip net = agree net.len (segments ip) net.prefix

-- The networks whose addresses embed an IPv4 address: ::/96, ::ffff:0:0/96, 64:ff9b::/96, 2002::/16
-- and 2001::/32.
abbrev pub embedding : List Network
embedding =
    network (0 ∷ 0 ∷ 0 ∷ 0 ∷ 0 ∷ 0 ∷ []) 96
    ∷ network (0 ∷ 0 ∷ 0 ∷ 0 ∷ 0 ∷ 0xffff ∷ []) 96
    ∷ network (0x64 ∷ 0xff9b ∷ 0 ∷ 0 ∷ 0 ∷ 0 ∷ []) 96
    ∷ network (0x2002 ∷ []) 16
    ∷ network (0x2001 ∷ 0 ∷ []) 32
    ∷ []

-- The networks that are refused: 64:ff9b:1::/48, fe80::/10 and fc00::/7.
abbrev pub refused_networks : List Network
refused_networks =
    network (0x64 ∷ 0xff9b ∷ 1 ∷ []) 48 ∷ network (0xfe80 ∷ []) 10 ∷ network (0xfc00 ∷ []) 7 ∷ []

both_tests : (a b : Bool) → (not a && not b) ≡ not (a || b)
both_tests true b = refl
both_tests false b = refl

three_tests : (l a b : Bool) → (if l then false else not (a || b)) ≡ not (l || (a || (b || false)))
three_tests true a b = refl
three_tests false true b = refl
three_tests false false true = refl
three_tests false false false = refl

and_true : (b : Bool) → (b && true) ≡ b
and_true true = refl
and_true false = refl

module _ (ip : Ipv6Addr) (h : any (is_in ip) embedding ≡ false) where
  to_ipv4-none : to_ipv4 ip ≡ none
  unfolding to_ipv4
  to_ipv4-none = ground arith

  nat64-none : nat64_embedded_ipv4 ip ≡ none
  unfolding nat64_embedded_ipv4
  nat64-none = ground arith

  sixto4-none : sixto4_embedded_ipv4 ip ≡ none
  unfolding sixto4_embedded_ipv4
  sixto4-none = ground arith

  teredo-none : teredo_embedded_ipv4 ip ≡ none
  unfolding teredo_embedded_ipv4
  teredo-none = ground arith

  not_small : (n : ℕ) → ipv6_is n ip ≡ false
  not_small n = ground arith

  is_safe_native_lem : ip.s0 < 2 ^ 16 → is_safe_native ip ≡ not (in_fe80 ip.s0 || in_fc00 ip.s0)
  unfolding is_safe_native
  is_safe_native_lem small =
      rw (not_small 1, not_small 0, test_10 ip.s0 small, test_7 ip.s0 small)
        (both_tests (in_fe80 ip.s0) (in_fc00 ip.s0))

  is_nat64_local_lem : is_nat64_local ip ≡ is_in ip (network (0x64 ∷ 0xff9b ∷ 1 ∷ []) 48)
  unfolding is_nat64_local
  is_nat64_local_lem = rw (and_true (ip.s2 == 1)) refl

  -- An IPv6 address outside the networks that embed IPv4 addresses (::/96, ::ffff:0:0/96,
  -- 64:ff9b::/96, 2002::/16 and 2001::/32), with a first segment of 16 bits, is safe exactly if it
  -- is in none of 64:ff9b:1::/48, fe80::/10 and fc00::/7.
  pub is_safe_resolved_ip-native :
      ip.s0 < 2 ^ 16 → is_safe_resolved_ip (v6 ip) ≡ not (any (is_in ip) refused_networks)
  unfolding is_safe_resolved_ip judged_or
  is_safe_resolved_ip-native small =
      rw
        (
          to_ipv4-none,
          nat64-none,
          sixto4-none,
          teredo-none,
          is_nat64_local_lem,
          is_safe_native_lem small,
        )
        (three_tests (is_in ip (network (0x64 ∷ 0xff9b ∷ 1 ∷ []) 48)) (in_fe80 ip.s0)
          (in_fc00 ip.s0))
