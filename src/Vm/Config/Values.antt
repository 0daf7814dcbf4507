-- ===== src/Vm/Config/Values.antt =====
-- The values in the JSON of a VM configuration, read where they are written: src/vm/state.rs.
use arapuca.Prelude.{
  ℕ, ◌^◌, ◌%◌, ◌/◌, ◌<◌, ◌≡◌, ◌≢◌, refl, ap, ◌∙◌, [], ◌∷◌, ◌++◌, append_assoc, Bool, true, false,
  some, ok, leb, Str, Bytes, length, arith, All, is_ascii_digit,
}
use arapuca.Prelude.Decimal.{
  to_string, read_digits, fitting, to_string-IsDigit, to_string-front, read_digits-to_string,
}
use arapuca.Protocol.Frame.RoundTrip.{IsByte}
use arapuca.Protocol.Json.{skip_ws, hex_digit, encode_char, encode_chars, json_encode_string}
use arapuca.Protocol.Json.Strings.{parse_string-json_encode_string}
use arapuca.Protocol.Json.Values.{parse_u64, number_in, max_u64, parse_bool, bool_of}
use arapuca.Protocol.Nonce.{nonce_size}
use arapuca.Protocol.Request.Rounds.{span_digits-append}
use arapuca.Vm.Config.{bool_json, nonce_value}
use arapuca.Vm.Nonces.{nonce_hex}
use arapuca.Vm.Nonces.RoundTrip.{parse_nonce_hex-nonce_hex}

number_in-read :
    (digits rest : Str) (n : ℕ)
    → digits ≢ []
    → read_digits 0 digits ≡ some n
    → n < 2 ^ 64
    → number_in max_u64 "invalid number" digits rest ≡ ok (n, rest)
unfolding number_in fitting
number_in-read [] rest n filled e h = absurd (filled refl)
number_in-read (c ∷ digits) rest n filled e h =
    let small : fitting max_u64 (read_digits 0 (c ∷ digits)) ≡ some n = fits e in
    rw (small, number_in) refl
  where
    fits :
        read_digits 0 (c ∷ digits) ≡ some n → fitting max_u64 (read_digits 0 (c ∷ digits)) ≡ some n
    fits e = let low : leb n max_u64 ≡ true = ground arith in rw e (rw low refl)

pub parse_u64-to_string :
    (n c : ℕ) (rest : Str)
    → n < 2 ^ 64
    → is_ascii_digit c ≡ false
    → parse_u64 (to_string n ++ c ∷ rest) ≡ ok (n, c ∷ rest)
unfolding parse_u64
parse_u64-to_string n c rest h k =
    let (d, s, _, front) = to_string-front n in
    rw (span_digits-append (to_string n) c rest (to_string-IsDigit n) k)
      (number_in-read (to_string n) (c ∷ rest) n (λ e. cc) (read_digits-to_string n) h)

pub parse_bool-bool_json : (b : Bool) (rest : Str) → parse_bool (bool_json b ++ rest) ≡ ok (b, rest)
unfolding bool_json parse_bool bool_of
parse_bool-bool_json true rest = refl
parse_bool-bool_json false rest = refl

pub skip_ws-bool_json :
    (b : Bool) (rest : Str) → skip_ws (bool_json b ++ rest) ≡ bool_json b ++ rest
unfolding bool_json skip_ws
skip_ws-bool_json true rest = refl
skip_ws-bool_json false rest = refl

encode_char-hex_digit : (d : ℕ) → d < 16 → encode_char (hex_digit d) ≡ hex_digit d ∷ []
unfolding encode_char hex_digit
encode_char-hex_digit d h = ground arith

encode_chars-nonce_hex :
    (nonce : Bytes) → All IsByte nonce → encode_chars (nonce_hex nonce) ≡ nonce_hex nonce
unfolding nonce_hex encode_chars
encode_chars-nonce_hex [] h = refl
encode_chars-nonce_hex (b ∷ nonce) (hb, h) =
    rw
      (
        encode_char-hex_digit (b / 16) (omega arith),
        encode_char-hex_digit (b % 16) (omega arith),
        encode_chars-nonce_hex nonce h,
      )
      refl

quoted-nonce :
    (nonce : Bytes) (rest : Str)
    → All IsByte nonce
    → b'"' ∷ (nonce_hex nonce ++ b'"' ∷ rest) ≡ json_encode_string (nonce_hex nonce) ++ rest
unfolding json_encode_string
quoted-nonce nonce rest h =
    rw (encode_chars-nonce_hex nonce h, append_assoc (nonce_hex nonce) (b'"' ∷ []) rest) refl

pub nonce_value-nonce_hex :
    (nonce : Bytes) (rest : Str)
    → All IsByte nonce
    → length nonce ≡ nonce_size
    → nonce_value (b'"' ∷ (nonce_hex nonce ++ b'"' ∷ rest)) ≡ ok (nonce, rest)
unfolding nonce_value
nonce_value-nonce_hex nonce rest h l =
    ap nonce_value (quoted-nonce nonce rest h)
    ∙ rw
        (
          parse_string-json_encode_string (nonce_hex nonce) rest,
          parse_nonce_hex-nonce_hex nonce h l,
        )
        refl
