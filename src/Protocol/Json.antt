-- ===== src/Protocol/Json.antt =====
-- The JSON writer and parser of src/vm/protocol.rs. A `&str` is the list of its characters, and the
-- parser's position is the list of the characters that it has not read: every position that the
-- code computes is at a character's start, but for the slice of a `\u` escape, where it may panic.
pub mod Strings
pub mod Panics
pub mod Values
use Prim.Native.String.{String}
use mathlib.Core.List.{tail}
use arapuca.Prelude.{
  ℕ, zero, suc, ◌+◌, ◌-◌, ◌*◌, ◌/◌, ◌%◌, ◌≤◌, List, [], ◌∷◌, ◌++◌, Bool, true, false, ◌&&◌, ◌||◌,
  Option, none, some, Result, ok, err, ◌>>=◌, ◌>>◌, ltb, leb, ◌==◌, if◌then◌else◌, Str, codes,
  length, all, is_ascii_digit,
}
use arapuca.Prelude.Utf8.{char_len, str_len, take_bytes}
use arapuca.Protocol.Io.{ErrorKind, invalid_data, unexpected_eof}

-- Why the parser stops: an `io::Error`, or a panic. The model's loops that count rounds have a third
-- reason, that the count was too small.
pub data Failure : Type 0 where
  error : ErrorKind → String → Failure
  panic : Failure
  out_of_rounds : Failure

-- A lower-case hexadecimal digit, as `{:x}` prints it.
unfoldable pub hex_digit : ℕ → ℕ
hex_digit d = if ltb d 10 then b'0' + d else b'a' + (d - 10)

-- `\u{:04x}` of a number below 2 ^ 16.
abbrev pub unicode_escape : ℕ → Str
unicode_escape c =
    b'\\'
    ∷ b'u'
    ∷ hex_digit (c / 4096 % 16)
    ∷ hex_digit (c / 256 % 16)
    ∷ hex_digit (c / 16 % 16)
    ∷ hex_digit (c % 16)
    ∷ []

-- What `json_encode_string` writes for one character.
unfoldable pub encode_char : ℕ → Str
encode_char c =
    if c == b'"'
    then b'\\' ∷ b'"' ∷ []
    else if c == b'\\'
    then b'\\' ∷ b'\\' ∷ []
    else if c == b'\n'
    then b'\\' ∷ b'n' ∷ []
    else if c == b'\r'
    then b'\\' ∷ b'r' ∷ []
    else if c == b'\t'
    then b'\\' ∷ b't' ∷ []
    else if ltb c 0x20
    then unicode_escape c
    else c ∷ []

unfoldable pub encode_chars : Str → Str
encode_chars [] = []
encode_chars (c ∷ s) = encode_char c ++ encode_chars s

-- What `json_encode_string` appends to its output.
unfoldable pub json_encode_string : Str → Str
json_encode_string s = b'"' ∷ (encode_chars s ++ b'"' ∷ [])

-- The elements of `json_encode_string_array` behind the first.
unfoldable pub encode_more : List Str → Str
encode_more [] = codes "]"
encode_more (s ∷ arr) = b',' ∷ (json_encode_string s ++ encode_more arr)

unfoldable pub json_encode_string_array : List Str → Str
json_encode_string_array [] = codes "[]"
json_encode_string_array (s ∷ arr) = b'[' ∷ (json_encode_string s ++ encode_more arr)

-- `peek`: the first character that is left. The code compares its first byte with ASCII bytes only.
abbrev pub peek : Str → Option ℕ
peek [] = none
peek (c ∷ s) = some c

abbrev pub is_ascii_whitespace : ℕ → Bool
is_ascii_whitespace c = c == b' ' || c == b'\t' || c == b'\n' || c == 0x0c || c == b'\r'

unfoldable pub skip_ws : Str → Str
skip_ws [] = []
skip_ws (c ∷ s) = if is_ascii_whitespace c then skip_ws s else c ∷ s

unfoldable pub expect_byte : ℕ → Str → Result Failure Str
expect_byte expected [] = err (error unexpected_eof "expected byte")
expect_byte expected (c ∷ s) =
    if c == expected then ok s else err (error invalid_data "expected byte, got another")

-- `u32::from_str_radix(hex, 16)`, which accepts a leading "+".
unfoldable pub hex_value : ℕ → Option ℕ
hex_value c =
    if is_ascii_digit c
    then some (c - b'0')
    else if leb b'a' c && leb c b'f'
    then some (c - b'a' + 10)
    else if leb b'A' c && leb c b'F'
    then some (c - b'A' + 10)
    else none

unfoldable pub radix_digits : ℕ → Str → Option ℕ
radix_digits n [] = some n
radix_digits n (c ∷ s) = elim (hex_value c) [ none ↦ none | some d ↦ radix_digits (n * 16 + d) s ]

unfoldable pub from_str_radix16 : Str → Option ℕ
from_str_radix16 [] = none
from_str_radix16 (c ∷ []) = radix_digits 0 (c ∷ [])
from_str_radix16 (c ∷ d ∷ s) =
    if c == b'+' then radix_digits 0 (d ∷ s) else radix_digits 0 (c ∷ d ∷ s)

-- `char::from_u32`.
abbrev pub is_char : ℕ → Bool
is_char c = ltb c 0xd800 || (leb 0xe000 c && ltb c 0x11_0000)

-- The four bytes behind `\u`: the character that they name and the number of characters read.
unfoldable pub named_char : Str → Result Failure (ℕ × ℕ)
named_char hex = elim (from_str_radix16 hex) [
  | none ↦ err (error invalid_data "invalid \\u hex")
  | some code ↦
      if is_char code
      then ok (code, length hex)
      else err (error invalid_data "invalid unicode codepoint")
]

unfoldable pub read_unicode : Str → Result Failure (ℕ × ℕ)
read_unicode s =
    if ltb (str_len s) 4
    then err (error unexpected_eof "truncated \\u escape")
    else elim (take_bytes 4 s) [ none ↦ err panic | some hex ↦ named_char hex ]

-- Where the loop of `parse_string` stands: at a character, behind a backslash, or with characters
-- of an escape left to pass.
pub data Mode : Type 0 where
  text escape : Mode
  passing : ℕ → Mode

pub data Round : Type 0 where
  finished : Round
  failed : Failure → Round
  goes_on : Mode → Str → Round

-- The escape of one character.
unfoldable pub simple_escape : ℕ → Option ℕ
simple_escape c =
    if c == b'"'
    then some b'"'
    else if c == b'\\'
    then some b'\\'
    else if c == b'/'
    then some b'/'
    else if c == b'n'
    then some b'\n'
    else if c == b'r'
    then some b'\r'
    else if c == b't'
    then some b'\t'
    else if c == b'b'
    then some 0x08
    else if c == b'f'
    then some 0x0c
    else none

unfoldable pub after_unicode : Str → Result Failure (ℕ × ℕ) → Round
after_unicode acc (ok (code, n)) = goes_on (passing n) (acc ++ code ∷ [])
after_unicode acc (err e) = failed e

unfoldable pub after_escape : Str → ℕ → Str → Option ℕ → Round
after_escape acc c s (some d) = goes_on text (acc ++ d ∷ [])
after_escape acc c s none =
    if c == b'u'
    then after_unicode acc (read_unicode s)
    else failed (error invalid_data "invalid escape")

-- One character `c` of the loop, with the text so far and what is left behind `c`.
unfoldable pub round : Mode → Str → ℕ → Str → Round
round text acc c s =
    if c == b'"'
    then finished
    else if c == b'\\'
    then goes_on escape acc
    else goes_on text (acc ++ c ∷ [])
round escape acc c s = after_escape acc c s (simple_escape c)
round (passing zero) acc c s =
    if c == b'"'
    then finished
    else if c == b'\\'
    then goes_on escape acc
    else goes_on text (acc ++ c ∷ [])
round (passing (suc zero)) acc c s = goes_on text acc
round (passing (suc (suc n))) acc c s = goes_on (passing (suc n)) acc

unfoldable pub parse_chars : Mode → Str → Str → Result Failure (Str × Str)
parse_chars escape acc [] = err (error unexpected_eof "unterminated escape")
parse_chars text acc [] = err (error unexpected_eof "unterminated string")
parse_chars (passing n) acc [] = err (error unexpected_eof "unterminated string")
parse_chars mode acc (c ∷ s) = elim (round mode acc c s) [
  | finished ↦ ok (acc, s)
  | failed e ↦ err e
  | goes_on mode' acc' ↦ parse_chars mode' acc' s
]

-- The string and what is left.
unfoldable pub parse_string : Str → Result Failure (Str × Str)
parse_string s = do s' ← expect_byte b'"' s; parse_chars text [] s'

abbrev pub max_array_elements : ℕ
max_array_elements = 4096

-- The loop of `parse_string_array`; `room` counts the elements that may still come.
unfoldable pub parse_elements : ℕ → List Str → Str → Result Failure (List Str × Str)
parse_elements zero arr s = err (error invalid_data "array exceeds element limit")
parse_elements (suc room) arr s = do
  (e, s') ← parse_string (skip_ws s)
  let s'' = skip_ws s'
  let next = parse_elements room (arr ++ e ∷ []) (tail s'')
  elim (peek s'') [
    | none ↦ err (error unexpected_eof "unterminated array")
    | some c ↦
        if c == b','
        then next
        else if c == b']'
        then ok (arr ++ e ∷ [], tail s'')
        else err (error invalid_data "expected ',' or ']'")
  ]

abbrev pub at_bracket : Str → Bool
at_bracket [] = false
at_bracket (c ∷ s) = c == b']'

unfoldable pub parse_string_array : Str → Result Failure (List Str × Str)
parse_string_array s = do
  s' ← expect_byte b'[' s
  let s'' = skip_ws s'
  let elements = parse_elements max_array_elements [] s''
  if at_bracket s'' then ok ([], tail s'') else elements
