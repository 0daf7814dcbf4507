-- ===== src/Connect/Blocks.antt =====
-- The blocks of IPv4 addresses that src/bridge.rs refuses.
use arapuca.Prelude.{
  ℕ, ◌+◌, ◌*◌, ◌/◌, ◌^◌, ◌-◌, ◌<◌, ◌≡◌, ap, ◌∙◌, Bool, true, false, not, ◌||◌, ◌&&◌, List, [], ◌∷◌,
  any, ltb, leb, ◌==◌, arith,
}
use arapuca.Connect.{
  ipv4, is_safe_ipv4, is_loopback, is_private, is_link_local, is_broadcast, is_unspecified,
}

-- A block in CIDR notation: the network's number and the length of the prefix.
abbrev pub in_block : ℕ → ℕ × ℕ → Bool
in_block n (network, len) = n / 2 ^ (32 - len) == network / 2 ^ (32 - len)

-- The number of an address.
abbrev pub number : ℕ → ℕ → ℕ → ℕ → ℕ
number a b c d = a * 2 ^ 24 + b * 2 ^ 16 + c * 2 ^ 8 + d

-- 0/8, 10/8, 100.64/10, 127/8, 169.254/16, 172.16/12, 192.168/16, 198.18/15 and 240/4.
abbrev pub blocked : List (ℕ × ℕ)
blocked =
    (number 0 0 0 0, 8)
    ∷ (number 10 0 0 0, 8)
    ∷ (number 100 64 0 0, 10)
    ∷ (number 127 0 0 0, 8)
    ∷ (number 169 254 0 0, 16)
    ∷ (number 172 16 0 0, 12)
    ∷ (number 192 168 0 0, 16)
    ∷ (number 198 18 0 0, 15)
    ∷ (number 240 0 0 0, 4)
    ∷ []

-- Refusing one by one is refusing what any block has; the broadcast address and the unspecified one
-- add nothing.
none_of :
    (b0 b10 b100 b127 b169 b172 b192 b198 b240 broadcast unspecified : Bool)
    → (broadcast ≡ true → b240 ≡ true)
    → (unspecified ≡ true → b0 ≡ true)
    → (not b127
        && not (b10 || b172 || b192)
        && not b169
        && not broadcast
        && not unspecified
        && not b0
        && not b100
        && not b198
        && not b240)
      ≡ not (
          b0
          || (b10 || (b100 || (b127 || (b169 || (b172 || (b192 || (b198 || (b240 || false)))))))))
none_of b0 b10 b100 b127 b169 b172 b192 b198 b240 broadcast unspecified f g = ground arith

abbrev and_last : Bool → Bool → Bool
and_last x y = x && y

module _ (a b c d : ℕ) (ha : a < 256) (hb : b < 256) (hc : c < 256) (hd : d < 256) where
  prefix_8 : (k : ℕ) → (number a b c d / 2 ^ 24 == k) ≡ (a == k)
  prefix_8 k = ap (λ t. t == k) (omega arith)

  block_100 : (number a b c d / 2 ^ 22 == 0x191) ≡ (a == 100 && (leb 64 b && leb b 127))
  block_100 = ground arith

  block_169 : (number a b c d / 2 ^ 16 == 0xa9fe) ≡ (a == 169 && b == 254)
  block_169 = ground arith

  block_172 : (number a b c d / 2 ^ 20 == 0xac1) ≡ (a == 172 && (leb 16 b && leb b 31))
  block_172 = ground arith

  block_192 : (number a b c d / 2 ^ 16 == 0xc0a8) ≡ (a == 192 && b == 168)
  block_192 = ground arith

  block_198 : (number a b c d / 2 ^ 17 == 0x6309) ≡ (a == 198 && (leb 18 b && leb b 19))
  block_198 = ground arith

  block_240 : (number a b c d / 2 ^ 28 == 15) ≡ not (ltb a 240)
  block_240 = ground arith

  twice_not : (x : Bool) → x ≡ not (not x)
  twice_not x = ground arith

  broadcast_above : is_broadcast (ipv4 a b c d) ≡ true → not (ltb a 240) ≡ true
  broadcast_above h = ground arith

  unspecified_zero : is_unspecified (ipv4 a b c d) ≡ true → (a == 0) ≡ true
  unspecified_zero h = ground arith

  -- An IPv4 address is safe exactly if it is in none of the blocked networks.
  pub is_safe_ipv4_lem : is_safe_ipv4 (ipv4 a b c d) ≡ not (any (in_block (number a b c d)) blocked)
  unfolding is_safe_ipv4
  is_safe_ipv4_lem =
      rw
        (
          prefix_8 0,
          prefix_8 10,
          prefix_8 127,
          block_100,
          block_169,
          block_172,
          block_192,
          block_198,
          block_240,
        )
        (ap
            (and_last (
              not (is_loopback (ipv4 a b c d))
              && not (is_private (ipv4 a b c d))
              && not (is_link_local (ipv4 a b c d))
              && not (is_broadcast (ipv4 a b c d))
              && not (is_unspecified (ipv4 a b c d))
              && not (a == 0)
              && not (a == 100 && (leb 64 b && leb b 127))
              && not (a == 198 && (leb 18 b && leb b 19))))
            (twice_not (ltb a 240))
          ∙ none_of (a == 0) (a == 10) (a == 100 && (leb 64 b && leb b 127)) (a == 127)
              (a == 169 && b == 254) (a == 172 && (leb 16 b && leb b 31)) (a == 192 && b == 168)
              (a == 198 && (leb 18 b && leb b 19)) (not (ltb a 240)) (is_broadcast (ipv4 a b c d))
              (is_unspecified (ipv4 a b c d)) broadcast_above unspecified_zero)
