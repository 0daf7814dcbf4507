-- ===== src/Vm/Nonces/RoundTrip.antt =====
-- The nonce in the file of a VM, read back: src/vm/state.rs.
use arapuca.Prelude.{
  ℕ, ◌+◌, ◌*◌, ◌/◌, ◌%◌, ◌<◌, ◌≡◌, refl, ap, ◌∙◌, [], ◌∷◌, true, false, some, ok, ◌==◌, ==_iff,
  Bytes, length, arith, All,
}
use arapuca.Prelude.Utf8.{str_len}
use arapuca.Prelude.Utf8.Coding.{as_bytes, char_bytes}
use arapuca.Protocol.Frame.RoundTrip.{IsByte}
use arapuca.Protocol.Json.{hex_digit, from_str_radix16}
use arapuca.Protocol.Json.Strings.Escapes.{
  radix_digits-∷, radix_digits-[], from_str_radix16_two, char_len-hex_digit,
}
use arapuca.Protocol.Nonce.{nonce_size}
use arapuca.Vm.Nonces.{
  nonce_hex, is_continuation, inside_char, put_byte, slice_value, nonce_slices, parse_nonce_hex,
}

char_bytes-hex_digit : (d : ℕ) → d < 16 → char_bytes (hex_digit d) ≡ hex_digit d ∷ []
unfolding char_bytes hex_digit
char_bytes-hex_digit d h = ground arith

is_continuation-hex_digit : (d : ℕ) → d < 16 → is_continuation (hex_digit d) ≡ false
unfolding hex_digit
is_continuation-hex_digit d h = ground arith

str_len-nonce_hex :
    (nonce : Bytes) → All IsByte nonce → str_len (nonce_hex nonce) ≡ length nonce * 2
unfolding nonce_hex
str_len-nonce_hex [] h = refl
str_len-nonce_hex (b ∷ nonce) (hb, h) =
    rw
      (
        char_len-hex_digit (b / 16) (omega arith),
        char_len-hex_digit (b % 16) (omega arith),
        str_len-nonce_hex nonce h,
      )
      (omega arith)

as_bytes-nonce_hex :
    (nonce : Bytes) → All IsByte nonce → as_bytes (nonce_hex nonce) ≡ nonce_hex nonce
unfolding nonce_hex as_bytes
as_bytes-nonce_hex [] h = refl
as_bytes-nonce_hex (b ∷ nonce) (hb, h) =
    rw
      (
        char_bytes-hex_digit (b / 16) (omega arith),
        char_bytes-hex_digit (b % 16) (omega arith),
        as_bytes-nonce_hex nonce h,
      )
      refl

from_str_radix16_pair :
    (d e : ℕ)
    → d < 16
    → e < 16
    → from_str_radix16 (hex_digit d ∷ hex_digit e ∷ []) ≡ some ((0 * 16 + d) * 16 + e)
from_str_radix16_pair d e hd he =
    from_str_radix16_two d (hex_digit e) [] hd
    ∙ radix_digits-∷ 0 d (hex_digit e ∷ []) hd
    ∙ radix_digits-∷ (0 * 16 + d) e [] he
    ∙ radix_digits-[] ((0 * 16 + d) * 16 + e)

inside_char-nonce_hex : (nonce : Bytes) → All IsByte nonce → inside_char (nonce_hex nonce) ≡ false
unfolding nonce_hex inside_char
inside_char-nonce_hex [] h = refl
inside_char-nonce_hex (b ∷ nonce) (hb, h) = is_continuation-hex_digit (b / 16) (omega arith)

slice_value-digits :
    (b : ℕ) (nonce : Bytes)
    → b < 256
    → All IsByte nonce
    → slice_value (hex_digit (b / 16)) (hex_digit (b % 16)) (nonce_hex nonce) ≡ ok (some b)
unfolding slice_value
slice_value-digits b nonce hb h =
    let same : (0 * 16 + b / 16) * 16 + b % 16 ≡ b = omega arith in
    rw
      (
        is_continuation-hex_digit (b / 16) (omega arith),
        inside_char-nonce_hex nonce h,
        from_str_radix16_pair (b / 16) (b % 16) (omega arith) (omega arith),
        same,
      )
      refl

nonce_slices-∷ :
    (a b n : ℕ) (rest : Bytes)
    → slice_value a b rest ≡ ok (some n)
    → nonce_slices (a ∷ b ∷ rest) ≡ put_byte n (nonce_slices rest)
unfolding nonce_slices
nonce_slices-∷ a b n rest e = rw (e, nonce_slices) refl

nonce_slices-nonce_hex :
    (nonce : Bytes) → All IsByte nonce → nonce_slices (nonce_hex nonce) ≡ ok (some nonce)
unfolding nonce_slices nonce_hex put_byte
nonce_slices-nonce_hex [] h = refl
nonce_slices-nonce_hex (b ∷ nonce) (hb, h) =
    nonce_slices-∷ (hex_digit (b / 16)) (hex_digit (b % 16)) b (nonce_hex nonce)
      (slice_value-digits b nonce hb h)
    ∙ ap (put_byte b) (nonce_slices-nonce_hex nonce h)

-- A nonce of 32 bytes is read back from the digits that are written for it.
pub parse_nonce_hex-nonce_hex :
    (nonce : Bytes)
    → All IsByte nonce
    → length nonce ≡ nonce_size
    → parse_nonce_hex (nonce_hex nonce) ≡ ok (some nonce)
unfolding parse_nonce_hex
parse_nonce_hex-nonce_hex nonce h l =
    let long : (str_len (nonce_hex nonce) == nonce_size * 2) ≡ true =
      (==_iff (str_len (nonce_hex nonce)) (nonce_size * 2)).1
        (str_len-nonce_hex nonce h ∙ ap (λ n. n * 2) l) in
    rw (long, as_bytes-nonce_hex nonce h) (nonce_slices-nonce_hex nonce h)
