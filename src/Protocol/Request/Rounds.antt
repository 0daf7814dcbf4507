-- ===== src/Protocol/Request/Rounds.antt =====
-- The rounds of the loop of `from_json` of src/vm/protocol.rs over the fields that `to_json` writes.
use arapuca.Prelude.{
  ℕ, suc, ◌^◌, ◌-◌, ◌<◌, ◌≡◌, ◌≢◌, refl, [], ◌∷◌, ◌++◌, Bool, true, false, some, ok, ◌>>=◌, leb,
  Str, codes, arith, All, is_ascii_digit,
}
use arapuca.Prelude.Decimal.{
  to_string, read_digits, fitting, IsDigit, to_string-IsDigit, to_string-front,
  read_digits-to_string,
}
use arapuca.Protocol.Json.{skip_ws, expect_byte, json_encode_string}
use arapuca.Protocol.Json.Strings.{parse_string-json_encode_string, skip_ws-json_encode_string}
use arapuca.Protocol.Json.Values.{
  span_digits, number_in, parse_u64, narrowed, max_u64, parse_u16, closes,
}
use arapuca.Protocol.Request.{Fields, read_field, separator, one_field, field_loop, read_fields}

-- Digits end where something else begins.
pub span_digits-append :
    (digits : Str) (c : ℕ) (rest : Str)
    → All IsDigit digits
    → is_ascii_digit c ≡ false
    → span_digits (digits ++ c ∷ rest) ≡ (digits, c ∷ rest)
unfolding span_digits IsDigit
span_digits-append [] c rest h k = rw k refl
span_digits-append (d ∷ digits) c rest (hd, h) k =
    rw (hd, span_digits-append digits c rest h k) refl

number_in-digits :
    (digits rest : Str) (n : ℕ)
    → digits ≢ []
    → read_digits 0 digits ≡ some n
    → n < 2 ^ 16
    → (number_in max_u64 "invalid number" digits rest >>= narrowed) ≡ ok (n, rest)
unfolding number_in narrowed fitting
number_in-digits [] rest n filled e h = absurd (filled refl)
number_in-digits (c ∷ digits) rest n filled e h =
    let small : fitting max_u64 (read_digits 0 (c ∷ digits)) ≡ some n = fits e in
    let low : leb n (2 ^ 16 - 1) ≡ true = ground arith in rw (small, number_in) (rw low refl)
  where
    fits :
        read_digits 0 (c ∷ digits) ≡ some n → fitting max_u64 (read_digits 0 (c ∷ digits)) ≡ some n
    fits e = let low : leb n max_u64 ≡ true = ground arith in rw e (rw low refl)

pub parse_u16-to_string :
    (n c : ℕ) (rest : Str)
    → n < 2 ^ 16
    → is_ascii_digit c ≡ false
    → parse_u16 (to_string n ++ c ∷ rest) ≡ ok (n, c ∷ rest)
unfolding parse_u16 parse_u64
parse_u16-to_string n c rest h k =
    let (d, s, _, front) = to_string-front n in
    rw (span_digits-append (to_string n) c rest (to_string-IsDigit n) k)
      (number_in-digits (to_string n) (c ∷ rest) n (λ e. cc) (read_digits-to_string n) h)

-- A field in the text, and the rest behind its value.
abbrev pub field : Str → Str → Str
field key text = json_encode_string key ++ b':' ∷ text

pub colon : (text : Str) → expect_byte b':' (skip_ws (b':' ∷ text)) ≡ ok text
unfolding expect_byte skip_ws
colon text = refl

one_field-field :
    (first : Bool) (f f' : Fields) (key text rest s : Str)
    → separator first s ≡ ok (field key text)
    → skip_ws text ≡ text
    → read_field f key text ≡ ok (f', rest)
    → one_field first f s ≡ ok (f', rest)
unfolding one_field
one_field-field first f f' key text rest s e solid read =
    rw
      (
        e,
        skip_ws-json_encode_string key (b':' ∷ text),
        parse_string-json_encode_string key (b':' ∷ text),
        colon text,
        solid,
      )
      read

-- One round of the loop.
pub round_first :
    (k : ℕ) (f f' : Fields) (key text rest : Str)
    → skip_ws text ≡ text
    → read_field f key text ≡ ok (f', rest)
    → read_fields (suc k) true f (field key text) ≡ read_fields k false f' rest
unfolding read_fields field_loop separator closes json_encode_string
round_first k f f' key text rest solid read =
    rw (skip_ws-json_encode_string key (b':' ∷ text))
      (rw (one_field-field true f f' key text rest (field key text) refl solid read) refl)

pub round_next :
    (k : ℕ) (f f' : Fields) (key text rest : Str)
    → skip_ws text ≡ text
    → read_field f key text ≡ ok (f', rest)
    → read_fields (suc k) false f (b',' ∷ field key text) ≡ read_fields k false f' rest
unfolding read_fields field_loop separator closes expect_byte skip_ws
round_next k f f' key text rest solid read =
    rw (one_field-field false f f' key text rest (b',' ∷ field key text) refl solid read) refl

pub round_last : (k : ℕ) (f : Fields) → read_fields (suc k) false f (codes "}") ≡ ok f
unfolding read_fields field_loop closes skip_ws
round_last k f = refl
