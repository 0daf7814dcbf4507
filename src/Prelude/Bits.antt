-- ===== src/Prelude/Bits.antt =====
-- Laws of `&`, `|` and `^` on numbers: the lowest digit, and what the code asks of them.
use Prim.Native.Nat.{
  ℕ, zero, suc, ◌+◌, ◌*◌, ◌/◌, ◌%◌, ◌^◌, ◌≤◌, ◌<◌, min, max, differ, digits, bit_and, bit_or,
  bit_xor, bit_and-bitwise, bit_or-bitwise, bit_xor-bitwise,
}
use mathlib.Core.Path.{◌≡◌, refl, ap, sym, ◌∙◌}
use arapuca.Prelude.Tests.{◌==◌}
use native.Mathlib.Nat.{pow-suc, mul_assoc}
use native.Mathlib.Omega.{arith}

-- The count of digits to go does not matter, if it is enough.
digits-enough :
    (z : ℕ → ℕ) (f : ℕ → ℕ → ℕ) (k l a b : ℕ) → a ≤ k → a ≤ l → digits z f k a b ≡ digits z f l a b
digits-enough z f zero zero zero b p q = refl
digits-enough z f zero (suc l) zero b p q = refl
digits-enough z f (suc k) zero zero b p q = refl
digits-enough z f (suc k) (suc l) zero b p q = refl
digits-enough z f zero l (suc a) b p q = absurd (omega arith)
digits-enough z f (suc k) zero (suc a) b p q = absurd (omega arith)
digits-enough z f (suc k) (suc l) (suc a) b p q =
    ap (λ t. t * 2 + f (suc a % 2) (b % 2))
      (digits-enough z f k l (suc a / 2) (b / 2) (omega arith) (omega arith))

halved :
    (z : ℕ → ℕ) (f : ℕ → ℕ → ℕ) (a b : ℕ)
    → digits z f a (suc a / 2) (b / 2) ≡ digits z f (suc a / 2) (suc a / 2) (b / 2)
halved z f a b = digits-enough z f a (suc a / 2) (suc a / 2) (b / 2) (omega arith) (omega arith)

bit_and-0 : (b : ℕ) → bit_and 0 b ≡ 0
bit_and-0 b = bit_and-bitwise 0 b

bit_or-0 : (b : ℕ) → bit_or 0 b ≡ b
bit_or-0 b = bit_or-bitwise 0 b

bit_xor-0 : (b : ℕ) → bit_xor 0 b ≡ b
bit_xor-0 b = bit_xor-bitwise 0 b

bit_and_halves : (a b : ℕ) → bit_and a b ≡ bit_and (a / 2) (b / 2) * 2 + min (a % 2) (b % 2)
bit_and_halves zero b = omega (arith, bit_and-0 b, bit_and-0 (b / 2))
bit_and_halves (suc a) b = omega (
  arith,
  bit_and-bitwise (suc a) b,
  bit_and-bitwise (suc a / 2) (b / 2),
  halved (λ b. zero) min a b,
)

bit_or_halves : (a b : ℕ) → bit_or a b ≡ bit_or (a / 2) (b / 2) * 2 + max (a % 2) (b % 2)
bit_or_halves zero b = omega (arith, bit_or-0 b, bit_or-0 (b / 2))
bit_or_halves (suc a) b =
    omega
      (arith, bit_or-bitwise (suc a) b, bit_or-bitwise (suc a / 2) (b / 2), halved (λ b. b) max a b)

bit_xor_halves : (a b : ℕ) → bit_xor a b ≡ bit_xor (a / 2) (b / 2) * 2 + differ (a % 2) (b % 2)
bit_xor_halves zero b = omega (arith, bit_xor-0 b, bit_xor-0 (b / 2))
bit_xor_halves (suc a) b =
    bit_xor-bitwise (suc a) b
    ∙ ap (λ t. t * 2 + differ (suc a % 2) (b % 2)) (halved (λ b. b) differ a b)
    ∙ ap (λ t. t * 2 + differ (suc a % 2) (b % 2)) (sym (bit_xor-bitwise (suc a / 2) (b / 2)))

-- The digit at position `k`.
unfoldable pub bit : ℕ → ℕ → ℕ
bit zero a = a % 2
bit (suc k) a = bit k (a / 2)

bit_and-zero_at : (n a : ℕ) → a ≤ n → bit_and a 0 ≡ 0
bit_and-zero_at zero zero h = bit_and-0 0
bit_and-zero_at zero (suc a) h = absurd (omega arith)
bit_and-zero_at (suc n) zero h = bit_and-0 0
bit_and-zero_at (suc n) (suc a) h =
    omega (arith, bit_and_halves (suc a) 0, bit_and-zero_at n (suc a / 2) (omega arith))

half_of_double : (p : ℕ) → p * 2 / 2 ≡ p
half_of_double p = omega arith

-- Masking with an even mask.
pub bit_and-double : (a p : ℕ) → bit_and a (p * 2) ≡ bit_and (a / 2) p * 2
bit_and-double a p =
    bit_and_halves a (p * 2)
    ∙ ap (λ t. bit_and (a / 2) t * 2 + min (a % 2) (p * 2 % 2)) (half_of_double p)
    ∙ omega arith

halved_8 : (a b : ℕ) → b < 256 → (a * 256 + b) / 2 / 2 / 2 / 2 / 2 / 2 / 2 / 2 ≡ a
halved_8 a b h = omega arith

-- A mask of a number's bytes but the last.
pub masked_byte : (a b p : ℕ) → b < 256 → bit_and (a * 256 + b) (p * 256) ≡ bit_and a p * 256
masked_byte a b p h =
    let n = a * 256 + b in
    let m : p * 256 ≡ p * 2 * 2 * 2 * 2 * 2 * 2 * 2 * 2 = omega arith in
    ap (bit_and n) m
    ∙ bit_and-double n (p * 2 * 2 * 2 * 2 * 2 * 2 * 2)
    ∙ ap (λ t. t * 2) (bit_and-double (n / 2) (p * 2 * 2 * 2 * 2 * 2 * 2))
    ∙ ap (λ t. t * 2 * 2) (bit_and-double (n / 2 / 2) (p * 2 * 2 * 2 * 2 * 2))
    ∙ ap (λ t. t * 2 * 2 * 2) (bit_and-double (n / 2 / 2 / 2) (p * 2 * 2 * 2 * 2))
    ∙ ap (λ t. t * 2 * 2 * 2 * 2) (bit_and-double (n / 2 / 2 / 2 / 2) (p * 2 * 2 * 2))
    ∙ ap (λ t. t * 2 * 2 * 2 * 2 * 2) (bit_and-double (n / 2 / 2 / 2 / 2 / 2) (p * 2 * 2))
    ∙ ap (λ t. t * 2 * 2 * 2 * 2 * 2 * 2) (bit_and-double (n / 2 / 2 / 2 / 2 / 2 / 2) (p * 2))
    ∙ ap (λ t. t * 2 * 2 * 2 * 2 * 2 * 2 * 2) (bit_and-double (n / 2 / 2 / 2 / 2 / 2 / 2 / 2) p)
    ∙ ap (λ t. bit_and t p * 2 * 2 * 2 * 2 * 2 * 2 * 2 * 2) (halved_8 a b h)
    ∙ omega arith

-- Masking with one bit.
pub bit_and-power : (k a : ℕ) → bit_and a (2 ^ k) ≡ bit k a * 2 ^ k
unfolding bit
bit_and-power zero a =
    omega (arith, bit_and_halves a 1, bit_and-zero_at (a / 2) (a / 2) (omega arith))
bit_and-power (suc k) a =
    ap (bit_and a) (pow-suc 2 k)
    ∙ bit_and-double a (2 ^ k)
    ∙ ap (λ t. t * 2) (bit_and-power k (a / 2))
    ∙ mul_assoc (bit k (a / 2)) (2 ^ k) 2
    ∙ ap (λ t. bit k (a / 2) * t) (sym (pow-suc 2 k))

bit_le : (k a : ℕ) → bit k a ≤ 1
unfolding bit
bit_le zero a = omega arith
bit_le (suc k) a = bit_le k (a / 2)

times_is : (d p : ℕ) → d ≤ 1 → 1 ≤ p → (d * p == p) ≡ (d == 1)
times_is zero p h q = ground arith
times_is (suc zero) p h q = ground arith
times_is (suc (suc d)) p h q = absurd (omega arith)

power_positive : (k : ℕ) → 1 ≤ 2 ^ k
power_positive zero = omega arith
power_positive (suc k) = omega (arith, power_positive k, pow-suc 2 k)

-- The test of one bit.
pub masked_bit : (k a : ℕ) → (bit_and a (2 ^ k) == 2 ^ k) ≡ (bit k a == 1)
masked_bit k a =
    ap (λ t. t == 2 ^ k) (bit_and-power k a)
    ∙ times_is (bit k a) (2 ^ k) (bit_le k a) (power_positive k)

pub bit_or_is_zero : (a b : ℕ) → bit_or a b ≡ 0 → (a ≡ 0) × (b ≡ 0)
bit_or_is_zero a b h = or_zero (a + b) a b (omega arith) h
  where
    or_zero : (n a b : ℕ) → a + b ≤ n → bit_or a b ≡ 0 → (a ≡ 0) × (b ≡ 0)
    or_zero zero a b q h = (omega arith, omega arith)
    or_zero (suc n) zero b q h = (refl, sym (bit_or-0 b) ∙ h)
    or_zero (suc n) (suc a) b q h =
        let ih =
          or_zero n (suc a / 2) (b / 2) (omega arith) (omega (arith, bit_or_halves (suc a) b)) in
        (omega (arith, ih.0, bit_or_halves (suc a) b), omega (arith, ih.1, bit_or_halves (suc a) b))

differ-zero : (x y : ℕ) → differ x y ≡ 0 → x ≡ y
differ-zero zero y h = sym h
differ-zero (suc x) zero h = absurd (omega arith)
differ-zero (suc x) (suc y) h = ap suc (differ-zero x y h)

differ-same : (x : ℕ) → differ x x ≡ 0
differ-same zero = refl
differ-same (suc x) = differ-same x

pub bit_xor_is_zero : (a b : ℕ) → bit_xor a b ≡ 0 → a ≡ b
bit_xor_is_zero a b h = xor_zero (a + b) a b (omega arith) h
  where
    xor_zero : (n a b : ℕ) → a + b ≤ n → bit_xor a b ≡ 0 → a ≡ b
    xor_zero zero a b q h = omega arith
    xor_zero (suc n) zero b q h = sym h ∙ bit_xor-0 b
    xor_zero (suc n) (suc a) b q h =
        let e = bit_xor_halves (suc a) b in
        let low : differ (suc a % 2) (b % 2) ≡ 0 = omega arith in
        let ih = xor_zero n (suc a / 2) (b / 2) (omega arith) (omega arith) in
        omega (arith, ih, differ-zero (suc a % 2) (b % 2) low)

pub bit_xor-same : (a : ℕ) → bit_xor a a ≡ 0
bit_xor-same a = xor_same a a (omega arith)
  where
    xor_same : (n a : ℕ) → a ≤ n → bit_xor a a ≡ 0
    xor_same zero zero q = bit_xor-0 0
    xor_same zero (suc a) q = absurd (omega arith)
    xor_same (suc n) zero q = bit_xor-0 0
    xor_same (suc n) (suc a) q = omega (
      arith,
      bit_xor_halves (suc a) (suc a),
      differ-same (suc a % 2),
      xor_same n (suc a / 2) (omega arith),
    )

-- The mask of `k` ones.
abbrev pub ones : ℕ → ℕ
ones zero = 0
ones (suc k) = ones k * 2 + 1

odd_half : (p : ℕ) → (p * 2 + 1) / 2 ≡ p
odd_half p = omega arith

below_half : (k a : ℕ) → a < 2 ^ suc k → a / 2 < 2 ^ k
below_half k a h = omega (arith, pow-suc 2 k)

-- Masking a number with enough ones.
pub bit_and-ones : (k a : ℕ) → a < 2 ^ k → bit_and a (ones k) ≡ a
bit_and-ones zero zero h = bit_and-0 0
bit_and-ones zero (suc a) h = absurd (omega arith)
bit_and-ones (suc k) a h =
    bit_and_halves a (ones k * 2 + 1)
    ∙ ap (λ t. bit_and (a / 2) t * 2 + min (a % 2) ((ones k * 2 + 1) % 2)) (odd_half (ones k))
    ∙ ap (λ t. t * 2 + min (a % 2) ((ones k * 2 + 1) % 2))
        (bit_and-ones k (a / 2) (below_half k a h))
    ∙ omega arith
