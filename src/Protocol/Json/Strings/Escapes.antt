-- ===== src/Protocol/Json/Strings/Escapes.antt =====
-- Reading the `\u` escapes that the JSON writer of src/vm/protocol.rs prints.
use arapuca.Prelude.{
  ℕ, ◌+◌, ◌*◌, ◌/◌, ◌%◌, ◌<◌, ◌≡◌, refl, ap, ◌∙◌, [], ◌∷◌, arith, true, false, some, ok, ltb, ◌==◌,
  Str, length,
}
use arapuca.Prelude.Utf8.{char_len, str_len, take_bytes, take_bytes-ascii}
use arapuca.Protocol.Json.{
  hex_digit, hex_value, radix_digits, from_str_radix16, read_unicode, named_char, is_char,
}

hex_value-hex_digit : (d : ℕ) → d < 16 → hex_value (hex_digit d) ≡ some d
unfolding hex_value hex_digit
hex_value-hex_digit d h = ground arith

pub char_len-hex_digit : (d : ℕ) → d < 16 → char_len (hex_digit d) ≡ 1
unfolding char_len hex_digit
char_len-hex_digit d h = ground arith

hex_digit_not_plus : (d : ℕ) → d < 16 → (hex_digit d == b'+') ≡ false
unfolding hex_digit
hex_digit_not_plus d h = ground arith

pub radix_digits-∷ :
    (n d : ℕ) (s : Str) → d < 16 → radix_digits n (hex_digit d ∷ s) ≡ radix_digits (n * 16 + d) s
unfolding radix_digits
radix_digits-∷ n d s h = rw (hex_value-hex_digit d h, radix_digits) refl

pub radix_digits-[] : (n : ℕ) → radix_digits n [] ≡ some n
unfolding radix_digits
radix_digits-[] n = refl

pub from_str_radix16_two :
    (d c : ℕ) (s : Str)
    → d < 16
    → from_str_radix16 (hex_digit d ∷ c ∷ s) ≡ radix_digits 0 (hex_digit d ∷ c ∷ s)
unfolding from_str_radix16
from_str_radix16_two d c s h = rw (hex_digit_not_plus d h) refl

from_str_radix16_digits :
    (a b c d : ℕ)
    → a < 16
    → b < 16
    → c < 16
    → d < 16
    → from_str_radix16 (hex_digit a ∷ hex_digit b ∷ hex_digit c ∷ hex_digit d ∷ [])
      ≡ some (((a * 16 + b) * 16 + c) * 16 + d)
from_str_radix16_digits a b c d ha hb hc hd =
    let zero_digits : 0 * 16 + a ≡ a = omega arith in
    from_str_radix16_two a (hex_digit b) (hex_digit c ∷ hex_digit d ∷ []) ha
    ∙ radix_digits-∷ 0 a (hex_digit b ∷ hex_digit c ∷ hex_digit d ∷ []) ha
    ∙ ap (λ n. radix_digits n (hex_digit b ∷ hex_digit c ∷ hex_digit d ∷ [])) zero_digits
    ∙ radix_digits-∷ a b (hex_digit c ∷ hex_digit d ∷ []) hb
    ∙ radix_digits-∷ (a * 16 + b) c (hex_digit d ∷ []) hc
    ∙ radix_digits-∷ ((a * 16 + b) * 16 + c) d [] hd
    ∙ radix_digits-[] (((a * 16 + b) * 16 + c) * 16 + d)

long_enough : (n : ℕ) → ltb (1 + (1 + (1 + (1 + n)))) 4 ≡ false
long_enough n = ground arith

take_bytes_zero : (s : Str) → take_bytes 0 s ≡ some []
unfolding take_bytes
take_bytes_zero s = refl

take_bytes_digits :
    (a b c d : ℕ) (rest : Str)
    → a < 16
    → b < 16
    → c < 16
    → d < 16
    → take_bytes 4 (hex_digit a ∷ hex_digit b ∷ hex_digit c ∷ hex_digit d ∷ rest)
      ≡ some (hex_digit a ∷ hex_digit b ∷ hex_digit c ∷ hex_digit d ∷ [])
take_bytes_digits a b c d rest ha hb hc hd =
    rw
      (
        take_bytes-ascii 3 (hex_digit a) (hex_digit b ∷ hex_digit c ∷ hex_digit d ∷ rest)
            (char_len-hex_digit a ha),
        take_bytes-ascii 2 (hex_digit b) (hex_digit c ∷ hex_digit d ∷ rest)
            (char_len-hex_digit b hb),
        take_bytes-ascii 1 (hex_digit c) (hex_digit d ∷ rest) (char_len-hex_digit c hc),
        take_bytes-ascii 0 (hex_digit d) rest (char_len-hex_digit d hd),
        take_bytes_zero rest,
      )
      refl

read_unicode_long :
    (s hex : Str)
    → ltb (str_len s) 4 ≡ false
    → take_bytes 4 s ≡ some hex
    → read_unicode s ≡ named_char hex
unfolding read_unicode
read_unicode_long s hex long e = rw (long, e) refl

read_unicode_digits :
    (a b c d : ℕ) (rest : Str)
    → a < 16
    → b < 16
    → c < 16
    → d < 16
    → read_unicode (hex_digit a ∷ hex_digit b ∷ hex_digit c ∷ hex_digit d ∷ rest)
      ≡ named_char (hex_digit a ∷ hex_digit b ∷ hex_digit c ∷ hex_digit d ∷ [])
read_unicode_digits a b c d rest ha hb hc hd =
    let long : ltb (str_len (hex_digit a ∷ hex_digit b ∷ hex_digit c ∷ hex_digit d ∷ rest)) 4
        ≡ false =
      rw
        (
          char_len-hex_digit a ha,
          char_len-hex_digit b hb,
          char_len-hex_digit c hc,
          char_len-hex_digit d hd,
        )
        (long_enough (str_len rest)) in
    read_unicode_long (hex_digit a ∷ hex_digit b ∷ hex_digit c ∷ hex_digit d ∷ rest)
      (hex_digit a ∷ hex_digit b ∷ hex_digit c ∷ hex_digit d ∷ []) long
      (take_bytes_digits a b c d rest ha hb hc hd)

named_char-some :
    (hex : Str) (c : ℕ)
    → from_str_radix16 hex ≡ some c
    → is_char c ≡ true
    → named_char hex ≡ ok (c, length hex)
unfolding named_char
named_char-some hex c e h = rw (e, h, named_char) refl

digits_of :
    (c : ℕ) → c < 0x20 → ((c / 4096 % 16 * 16 + c / 256 % 16) * 16 + c / 16 % 16) * 16 + c % 16 ≡ c
digits_of c h = omega arith

small_is_char : (c : ℕ) → c < 0x20 → is_char c ≡ true
small_is_char c h = ground arith

below_16 : (n : ℕ) → n % 16 < 16
below_16 n = omega arith

pub read_unicode-unicode_escape :
    (c : ℕ) (rest : Str)
    → c < 0x20
    → read_unicode (
        hex_digit (c / 4096 % 16)
        ∷ hex_digit (c / 256 % 16)
        ∷ hex_digit (c / 16 % 16)
        ∷ hex_digit (c % 16)
        ∷ rest)
      ≡ ok (c, 4)
read_unicode-unicode_escape c rest h =
    let a = c / 4096 % 16 in
    let b = c / 256 % 16 in
    let d = c / 16 % 16 in
    let e = c % 16 in
    let ha = below_16 (c / 4096) in
    let hb = below_16 (c / 256) in
    let hd = below_16 (c / 16) in
    let he = below_16 c in
    read_unicode_digits a b d e rest ha hb hd he
    ∙ named_char-some (hex_digit a ∷ hex_digit b ∷ hex_digit d ∷ hex_digit e ∷ []) c
        (from_str_radix16_digits a b d e ha hb hd he ∙ ap some (digits_of c h)) (small_is_char c h)
