-- ===== src/Protocol/Control/Characters.antt =====
-- The characters of the lines of control messages: all of them are Unicode scalar values if those of
-- the messages' texts are.
use arapuca.Prelude.{
  ℕ, suc, ◌/◌, ◌%◌, ◌<◌, ◌≡◌, refl, List, [], ◌∷◌, ◌++◌, Bool, true, false, ◌&&◌, ltb, ◌==◌,
  if◌then◌else◌, Str, All, All-append, arith,
}
use arapuca.Prelude.Utf8.Coding.RoundTrip.{IsScalar}
use arapuca.Prelude.Decimal.{to_string, IsDigit, to_string-IsDigit}
use arapuca.Prelude.Signed.{ℤ, pos, negsuc, print_signed}
use arapuca.Protocol.Json.{
  hex_digit, unicode_escape, encode_char, encode_chars, encode_more, json_encode_string,
  json_encode_string_array,
}

ascii-IsScalar : (c : ℕ) → c < 0x80 → IsScalar c
unfolding IsScalar
ascii-IsScalar c h = ground arith

hex_digit-lt : (d : ℕ) → d < 16 → hex_digit d < 0x80
unfolding hex_digit
hex_digit-lt d h = ground arith

abbrev pub IsText : Str → Type 0
IsText = All IsScalar

-- A literal's characters are below 0x80.
abbrev pub is_ascii : Str → Bool
is_ascii [] = true
is_ascii (c ∷ s) = ltb c 0x80 && is_ascii s

pub is_ascii-IsText : (s : Str) → is_ascii s ≡ true → IsText s
is_ascii-IsText [] h = tt
is_ascii-IsText (c ∷ s) h = (ascii-IsScalar c (ground arith), is_ascii-IsText s (ground arith))

hex-IsScalar : (d : ℕ) → d < 16 → IsScalar (hex_digit d)
hex-IsScalar d h = ascii-IsScalar (hex_digit d) (hex_digit-lt d h)

unicode_escape-IsText : (c : ℕ) → IsText (unicode_escape c)
unicode_escape-IsText c = (
  ascii-IsScalar b'\\' (omega arith),
  (
    ascii-IsScalar b'u' (omega arith),
    (
      hex-IsScalar (c / 4096 % 16) (omega arith),
      (
        hex-IsScalar (c / 256 % 16) (omega arith),
        (hex-IsScalar (c / 16 % 16) (omega arith), (hex-IsScalar (c % 16) (omega arith), tt)),
      ),
    ),
  ),
)

if-IsText : (b : Bool) (x y : Str) → IsText x → IsText y → IsText (if b then x else y)
if-IsText true x y h k = h
if-IsText false x y h k = k

encode_char-IsText : (c : ℕ) → IsScalar c → IsText (encode_char c)
unfolding encode_char
encode_char-IsText c h =
    let plain = if ltb c 0x20 then unicode_escape c else c ∷ [] in
    let tab = if c == b'\t' then b'\\' ∷ b't' ∷ [] else plain in
    let return = if c == b'\r' then b'\\' ∷ b'r' ∷ [] else tab in
    let newline = if c == b'\n' then b'\\' ∷ b'n' ∷ [] else return in
    let backslash = if c == b'\\' then b'\\' ∷ b'\\' ∷ [] else newline in
    if-IsText (c == b'"') (b'\\' ∷ b'"' ∷ []) backslash (is_ascii-IsText (b'\\' ∷ b'"' ∷ []) refl) (
      if-IsText (c == b'\\') (b'\\' ∷ b'\\' ∷ []) newline
        (is_ascii-IsText (b'\\' ∷ b'\\' ∷ []) refl)
        (if-IsText (c == b'\n') (b'\\' ∷ b'n' ∷ []) return
          (is_ascii-IsText (b'\\' ∷ b'n' ∷ []) refl)
          (if-IsText (c == b'\r') (b'\\' ∷ b'r' ∷ []) tab (is_ascii-IsText (b'\\' ∷ b'r' ∷ []) refl)
            (if-IsText (c == b'\t') (b'\\' ∷ b't' ∷ []) plain
              (is_ascii-IsText (b'\\' ∷ b't' ∷ []) refl)
              (if-IsText (ltb c 0x20) (unicode_escape c) (c ∷ []) (unicode_escape-IsText c)
                (h, tt))))))

encode_chars-IsText : (s : Str) → IsText s → IsText (encode_chars s)
unfolding encode_chars
encode_chars-IsText [] h = tt
encode_chars-IsText (c ∷ s) (hc, h) =
    All-append IsScalar (encode_char c) (encode_chars s) (encode_char-IsText c hc)
      (encode_chars-IsText s h)

quote-IsScalar : IsScalar b'"'
quote-IsScalar = ascii-IsScalar b'"' (omega arith)

pub json_encode_string-IsText : (s : Str) → IsText s → IsText (json_encode_string s)
unfolding json_encode_string
json_encode_string-IsText s h = (
  quote-IsScalar,
  All-append IsScalar (encode_chars s) (b'"' ∷ []) (encode_chars-IsText s h) (quote-IsScalar, tt),
)

encode_more-IsText : (arr : List Str) → All IsText arr → IsText (encode_more arr)
unfolding encode_more
encode_more-IsText [] h = (ascii-IsScalar b']' (omega arith), tt)
encode_more-IsText (s ∷ arr) (hs, h) = (
  ascii-IsScalar b',' (omega arith),
  All-append IsScalar (json_encode_string s) (encode_more arr) (json_encode_string-IsText s hs)
      (encode_more-IsText arr h),
)

pub json_encode_string_array-IsText :
    (arr : List Str) → All IsText arr → IsText (json_encode_string_array arr)
unfolding json_encode_string_array
json_encode_string_array-IsText [] h = is_ascii-IsText (b'[' ∷ b']' ∷ []) refl
json_encode_string_array-IsText (s ∷ arr) (hs, h) = (
  ascii-IsScalar b'[' (omega arith),
  All-append IsScalar (json_encode_string s) (encode_more arr) (json_encode_string-IsText s hs)
      (encode_more-IsText arr h),
)

digit-IsScalar : (c : ℕ) → IsDigit c → IsScalar c
unfolding IsDigit IsScalar
digit-IsScalar c h = ground arith

digits-IsText : (s : Str) → All IsDigit s → IsText s
digits-IsText [] h = tt
digits-IsText (c ∷ s) (hc, h) = (digit-IsScalar c hc, digits-IsText s h)

pub to_string-IsText : (n : ℕ) → IsText (to_string n)
to_string-IsText n = digits-IsText (to_string n) (to_string-IsDigit n)

pub print_signed-IsText : (n : ℤ) → IsText (print_signed n)
unfolding print_signed
print_signed-IsText (pos n) = to_string-IsText n
print_signed-IsText (negsuc n) = (ascii-IsScalar b'-' (omega arith), to_string-IsText (suc n))

-- A literal in front.
pub behind_literal : (p s : Str) → is_ascii p ≡ true → IsText s → IsText (p ++ s)
behind_literal p s h k = All-append IsScalar p s (is_ascii-IsText p h) k
