-- ===== src/Vm/Nonces.antt =====
-- The nonce in the file of a VM: `parse_nonce_hex` of src/vm/state.rs and the digits that `to_json`
-- writes. A slice of a `&str` that begins or ends inside a character panics.
pub mod RoundTrip
use arapuca.Prelude.{
  ℕ, ◌*◌, ◌/◌, ◌%◌, [], ◌∷◌, Bool, true, false, ◌&&◌, ◌||◌, Option, none, some, Result, ok, err,
  ltb, leb, ◌==◌, if◌then◌else◌, Str, Bytes, not,
}
use arapuca.Prelude.Utf8.{str_len}
use arapuca.Prelude.Utf8.Coding.{as_bytes}
use arapuca.Protocol.Json.{Failure, panic, hex_digit, from_str_radix16}
use arapuca.Protocol.Nonce.{nonce_size}

-- `{b:02x}` of a byte, for each byte.
unfoldable pub nonce_hex : Bytes → Str
nonce_hex [] = []
nonce_hex (b ∷ nonce) = hex_digit (b / 16) ∷ hex_digit (b % 16) ∷ nonce_hex nonce

-- Whether a byte is inside a character.
abbrev pub is_continuation : ℕ → Bool
is_continuation b = leb 0x80 b && ltb b 0xc0

-- Whether the next byte is.
unfoldable pub inside_char : Bytes → Bool
inside_char [] = false
inside_char (b ∷ rest) = is_continuation b

unfoldable pub put_byte : ℕ → Result Failure (Option Bytes) → Result Failure (Option Bytes)
put_byte n (err e) = err e
put_byte n (ok none) = ok none
put_byte n (ok (some nonce)) = ok (some (n ∷ nonce))

-- A slice of two bytes in front of others.
unfoldable pub slice_value : ℕ → ℕ → Bytes → Result Failure (Option ℕ)
slice_value a b rest =
    if is_continuation a || inside_char rest then err panic else ok (from_str_radix16 (a ∷ b ∷ []))

-- The loop over the slices. The number of bytes is even.
unfoldable pub nonce_slices : Bytes → Result Failure (Option Bytes)
nonce_slices [] = ok (some [])
nonce_slices (a ∷ []) = ok none
nonce_slices (a ∷ b ∷ rest) = elim (slice_value a b rest) [
  | err e ↦ err e
  | ok none ↦ ok none
  | ok (some n) ↦ put_byte n (nonce_slices rest)
]

unfoldable pub parse_nonce_hex : Str → Result Failure (Option Bytes)
parse_nonce_hex hex =
    if not (str_len hex == nonce_size * 2) then ok none else nonce_slices (as_bytes hex)
